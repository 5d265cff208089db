-- ===== src/Publisher/Hook/Return.antt =====
-- What an accepted Connection Table does to the connection.
use io_t_midterm_availabilit.Base.{
  String, ◌≡◌, ◌≢◌, refl, sym, ap, subst, ◌∙◌, inl, inr, true, false, Option, none, some, arith,
  ◌=ₛ◌, eq_iff, Bool-cases,
}
use io_t_midterm_availabilit.Js.Value.{Value, str, null, truthy}
use io_t_midterm_availabilit.Publisher.Ct.{Ct}
use io_t_midterm_availabilit.Publisher.Selection.Primary.{
  IsPrimaryId, resolve_primary_edge_id-NamesPrimary, resolve_primary_edge_id-absent,
}
use io_t_midterm_availabilit.Publisher.Selection.Accepted.{
  IsAcceptable, ShowsOnline, should_accept_ct_update_iff, should_return_to_primary_iff,
}
use io_t_midterm_availabilit.Publisher.Selection.{
  Broker, resolve_primary_edge_id, should_accept_ct_update, should_return_to_primary,
  select_fallback_broker,
}
use io_t_midterm_availabilit.Publisher.Hook.State.{State, Client}
use io_t_midterm_availabilit.Publisher.Hook.Connection.{
  destroy_client, connect_to_broker, schedule_primary_retry, fail_over_to, fallback_url,
  to_selected, attempt_failover, remember_preferred_core, resolve_primary, decide_after_ct,
  store_ct, handle_ct_message,
}

connect_to_broker-ct : (url : String) (s : State) → (connect_to_broker url s).ct ≡ s.ct
unfolding connect_to_broker destroy_client
connect_to_broker-ct url s = ground arith

fail_over_to-ct : (url : String) (s : State) → (fail_over_to url s).ct ≡ s.ct
unfolding fail_over_to
fail_over_to-ct url s = connect_to_broker-ct url _

to_selected-ct : (s : State) (b : Option Broker) → (to_selected s b).ct ≡ s.ct
unfolding to_selected schedule_primary_retry
to_selected-ct s none = refl
to_selected-ct s (some b) = ground (arith, fail_over_to-ct (fallback_url s b) s)

attempt_failover-ct : (s : State) → (attempt_failover s).ct ≡ s.ct
unfolding attempt_failover schedule_primary_retry
attempt_failover-ct s = ground (
  arith,
  fail_over_to-ct s.cached_core_url s,
  to_selected-ct s (select_fallback_broker s.ct s.primary_edge_id s.primary_ip),
)

decide_after_ct-ct : (s : State) → (decide_after_ct s).ct ≡ s.ct
unfolding decide_after_ct
decide_after_ct-ct s = ground (
  arith,
  attempt_failover-ct s,
  connect_to_broker-ct s.primary_url (record s { on_fallback = false }),
)

-- What is settled before the decision.
record Settled (s t : State) : Type 0 where
  ct : t.ct ≡ s.ct
  fallback : t.on_fallback ≡ s.on_fallback
  primary : t.primary_url ≡ s.primary_url
  client : t.client ≡ s.client
  active : t.active_url ≡ s.active_url

settled : (s : State) → Settled s (resolve_primary (remember_preferred_core s))
unfolding resolve_primary remember_preferred_core
settled s = ground arith

-- A new client is on its way to `url`, without the fallback mark.
pub record GoesTo (url : String) (t : State) : Type 0 where
  pub unmarked : t.on_fallback ≡ false
  pub active : t.active_url ≡ url
  pub client : (c : Client) × (t.client ≡ some c) × (c.url ≡ url)

destroy_client-fallback : (s : State) → (destroy_client s).on_fallback ≡ s.on_fallback
unfolding destroy_client
destroy_client-fallback s = ground arith

connect_to_broker-GoesTo :
    (url : String) (s : State)
    → url ≢ ""
    → s.on_fallback ≡ false
    → GoesTo url (connect_to_broker url s)
unfolding connect_to_broker
connect_to_broker-GoesTo url s u f = elim (Bool-cases (url =ₛ "")) [
  | inl e ↦ ground (arith, e, eq_iff url "", u)
  | inr e ↦ rw e (record {
    unmarked = destroy_client-fallback s ∙ f;
    active = refl;
    client = (
      record { serial = (destroy_client s).next_serial; url = url; is_connected = false },
      refl,
      refl,
    );
  })
]

-- The state in which the decision is taken: the table is stored, and the primary is looked up.
abbrev pub updated : Ct → State → State
updated next s = resolve_primary (remember_preferred_core (store_ct next s))

-- What becomes of a state `s` and a table: `t` is the state after it.
pub record IsHandled (next : Ct) (s t : State) : Type 0 where
  pub rejected : ¬ IsAcceptable s.ct next → t ≡ s
  pub newest : IsAcceptable s.ct next → t.ct ≡ some next
  pub returns :
      IsAcceptable s.ct next
      → s.on_fallback ≡ true
      → s.primary_url ≢ ""
      → (id : Value) → IsPrimaryId s.primary_ip s.primary_edge_id next id
      → ShowsOnline next id
      → GoesTo s.primary_url t
  pub stays :
      s.on_fallback ≡ true
      → (id : Value) → IsPrimaryId s.primary_ip s.primary_edge_id next id
      → ¬ ShowsOnline next id
      → (t.client ≡ s.client) × (t.active_url ≡ s.active_url) × (t.on_fallback ≡ true)

resolve_primary-IsPrimaryId :
    (s : State) (next : Ct) (id : Value)
    → s.ct ≡ some next
    → IsPrimaryId s.primary_ip s.primary_edge_id next id
    → (resolve_primary s).primary_edge_id ≡ id
unfolding resolve_primary
resolve_primary-IsPrimaryId s next id e (inl (n, names, q)) =
    let found : resolve_primary_edge_id s.ct (str s.primary_ip) null ≡ n.id =
      rw e (resolve_primary_edge_id-NamesPrimary s.primary_ip next n names) in
    let (ip, listed, known) = names in ground (arith, eq_iff s.primary_ip "", ip, found, known, q)
resolve_primary-IsPrimaryId s next id e (inr (absent, q)) = elim (Bool-cases (s.primary_ip =ₛ "")) [
  | inl f ↦ ground (arith, f, q)
  | inr f ↦
      let missed : truthy (resolve_primary_edge_id s.ct (str s.primary_ip) null) ≡ false = rw e (
        resolve_primary_edge_id-absent s.primary_ip next
          (λ z. ground (arith, eq_iff s.primary_ip "", f, z)) absent) in
      ground (arith, f, missed, q)
]

record SamePrimary (s t : State) : Type 0 where
  ip : t.primary_ip ≡ s.primary_ip
  id : t.primary_edge_id ≡ s.primary_edge_id
  ct : t.ct ≡ s.ct

remember_preferred_core-SamePrimary : (s : State) → SamePrimary s (remember_preferred_core s)
unfolding remember_preferred_core
remember_preferred_core-SamePrimary s = ground arith

updated-IsPrimaryId :
    (s : State) (next : Ct) (id : Value)
    → IsPrimaryId s.primary_ip s.primary_edge_id next id
    → (updated next s).primary_edge_id ≡ id
updated-IsPrimaryId s next id h =
    let r = remember_preferred_core-SamePrimary (store_ct next s) in
    resolve_primary-IsPrimaryId (remember_preferred_core (store_ct next s)) next id r.ct
      (rw (r.ip, r.id) h)

decided_back :
    (u : State)
    → u.on_fallback ≡ true
    → u.primary_url ≢ ""
    → truthy u.primary_edge_id ≡ true
    → should_return_to_primary u.ct u.primary_edge_id ≡ true
    → GoesTo u.primary_url (decide_after_ct u)
unfolding decide_after_ct
decided_back u f p i r =
    rw (f, i, r) (connect_to_broker-GoesTo u.primary_url (record u { on_fallback = false }) p refl)

decided_stay :
    (u : State)
    → u.on_fallback ≡ true
    → should_return_to_primary u.ct u.primary_edge_id ≡ false
    → decide_after_ct u ≡ u
unfolding decide_after_ct
decided_stay u f r = elim (Bool-cases (truthy u.primary_edge_id)) [
  | inl t ↦ rw (f, t, r) refl
  | inr t ↦ rw (f, t) refl
]

-- A table that is accepted is the stored one; any other changes nothing. Accepted is what has a
-- numeric version, two arrays and two texts, and a version above the stored one, where that is a
-- number. While the publisher is on a fallback broker, an accepted table in which a node with the
-- primary's id is ONLINE sends it back to the primary's URL, with the fallback mark removed, where
-- that is not empty; a table without such a node leaves its connection as it is. The primary's id
-- is that of the table's first edge at the primary's address, where there is one with an id, and
-- otherwise the id known before.
pub handle_ct_message-IsHandled :
    (next : Ct) (s : State) → IsHandled next s (handle_ct_message (some next) s)
unfolding handle_ct_message
handle_ct_message-IsHandled next s = elim (Bool-cases (should_accept_ct_update s.ct (some next))) [
  | inl e ↦
      let u = settled (store_ct next s) in
      let w = updated next s in
      rw e (record {
        rejected = λ x. absurd (x ((should_accept_ct_update_iff s.ct next).0 e));
        newest = λ x. decide_after_ct-ct (updated next s) ∙ u.ct;
        returns = λ x f p id k online.
            let same : w.primary_edge_id ≡ id = updated-IsPrimaryId s next id k in
            subst (λ url. GoesTo url (decide_after_ct w)) u.primary
              (decided_back w (u.fallback ∙ f) (λ q. p (sym u.primary ∙ q)) (rw same online.0)
                (rw (u.ct, same) ((should_return_to_primary_iff next id).1 online)));
        stays = λ f id k offline.
            let same : w.primary_edge_id ≡ id = updated-IsPrimaryId s next id k in
            let not_shown : should_return_to_primary (some next) id ≡ false =
              elim (Bool-cases (should_return_to_primary (some next) id)) [
                | inl r ↦ absurd (offline ((should_return_to_primary_iff next id).0 r))
                | inr r ↦ r
              ] in
            let d : decide_after_ct w ≡ w =
              decided_stay w (u.fallback ∙ f) (rw (u.ct, same) not_shown) in
            (
              ap (λ (x : State). x.client) d ∙ u.client,
              ap (λ (x : State). x.active_url) d ∙ u.active,
              ap (λ (x : State). x.on_fallback) d ∙ (u.fallback ∙ f),
            );
      })
  | inr e ↦
      let refused : ¬ IsAcceptable s.ct next =
        λ a. ground (arith, e, (should_accept_ct_update_iff s.ct next).1 a) in
      rw e (record {
        rejected = λ x. refl;
        newest = λ x. absurd (refused x);
        returns = λ x f p id k online. absurd (refused x);
        stays = λ f id k offline. (refl, refl, f);
      })
]
