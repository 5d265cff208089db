-- ===== src/Publisher/Selection/Usable.antt =====
-- What the caller of `selectFallbackBroker` may rely on.
use io_t_midterm_availabilit.Base.{
  String, ◌≡◌, sym, subst, ◌⊎◌, inl, inr, ◌↔◌, Option, none, some, List, All-In, In, here,
  In-append_right,
}
use io_t_midterm_availabilit.Js.Value.{Value}
use io_t_midterm_availabilit.Publisher.Ct.{Ct, Node, Link}
use io_t_midterm_availabilit.Publisher.Selection.{
  Candidate, Broker, to_broker, build_candidate, select_fallback_broker,
}
use io_t_midterm_availabilit.Publisher.Selection.Eligible.{IsBrokerNode, Eligible}
use io_t_midterm_availabilit.Publisher.Selection.Best.{FirstBest}
use io_t_midterm_availabilit.Publisher.Selection.Choice.{
  Choice, CoreChoice, edge, core, active, backup, other, no_core, NoneIs, IsNamedCore, broker_of,
  select_fallback_broker_lem,
}

-- The broker is read off a listed node that is online with an address.
abbrev pub IsUsable : List Node → Broker → Type 0
IsUsable nodes b =
    (n : Node) × In n nodes × (b ≡ to_broker n) × (IsBrokerNode n "NODE" ⊎ IsBrokerNode n "CORE")

FirstBest-In :
    (links : Option (List Link)) (edge_id : Value) (role ip : String) (nodes : List Node)
    (c : Candidate) (f : FirstBest links edge_id role ip nodes c)
    → In f.node nodes
FirstBest-In links edge_id role ip nodes c f =
    subst (In f.node) (sym f.split) (In-append_right f.before here)

broker_of-built :
    (links : Option (List Link)) (edge_id : Value) (c : Candidate) (n : Node)
    → c ≡ build_candidate n links edge_id
    → broker_of c ≡ to_broker n
unfolding build_candidate
broker_of-built links edge_id c n e = rw e

module _ (ct : Ct) (nodes : List Node) (edge_id : Value) (ip : String) where
  best_usable :
      (role : String) (source : String) (c : Candidate) (b : Broker)
      → FirstBest ct.links edge_id role source nodes c
      → some b ≡ some (broker_of c)
      → (n : Node) × In n nodes × (b ≡ to_broker n) × IsBrokerNode n role
  best_usable role source c b f e = (
    f.node,
    FirstBest-In ct.links edge_id role source nodes c f,
    cc (broker_of-built ct.links edge_id c f.node f.built),
    f.admitted.0,
  )

  core-IsUsable : (b : Broker) → CoreChoice ct nodes edge_id (some b) → IsUsable nodes b
  core-IsUsable b (active n i h e) = (n, i, cc, inr h.1)
  core-IsUsable b (backup n _ i h e) = (n, i, cc, inr h.1)
  core-IsUsable b (other c _ _ f e) =
      let (n, i, e', k) = best_usable "CORE" "" c b f e in (n, i, e', inr k)
  core-IsUsable b (no_core _ _ _ e) = cc

  Choice-IsUsable : (b : Broker) → Choice ct nodes edge_id ip (some b) → IsUsable nodes b
  Choice-IsUsable b (edge c f e) =
      let (n, i, e', k) = best_usable "NODE" ip c b f e in (n, i, e', inl k)
  Choice-IsUsable b (core _ h) = core-IsUsable b h

  abbrev pub NothingUsable : Type 0
  NothingUsable =
      NoneIs (Eligible edge_id "NODE" ip) nodes
      × NoneIs (IsNamedCore ct.active_core_id) nodes
      × NoneIs (IsNamedCore ct.backup_core_id) nodes
      × NoneIs (Eligible edge_id "CORE" "") nodes

  Choice-none : (r : Option Broker) → Choice ct nodes edge_id ip r → r ≡ none → NothingUsable
  Choice-none r (edge c f e) z = cc
  Choice-none r (core k (active n i h e)) z = cc
  Choice-none r (core k (backup n a i h e)) z = cc
  Choice-none r (core k (other c a b f e)) z = cc
  Choice-none r (core k (no_core a b d e)) z = (k, a, b, d)

  none-Choice : (r : Option Broker) → Choice ct nodes edge_id ip r → NothingUsable → r ≡ none
  none-Choice r (edge c f e) (k, _, _, _) =
      absurd (All-In _ nodes k (FirstBest-In ct.links edge_id "NODE" ip nodes c f) f.admitted)
  none-Choice r (core _ (active n i h e)) (_, a, _, _) = absurd (All-In _ nodes a i h)
  none-Choice r (core _ (backup n _ i h e)) (_, _, b, _) = absurd (All-In _ nodes b i h)
  none-Choice r (core _ (other c _ _ f e)) (_, _, _, d) =
      absurd (All-In _ nodes d (FirstBest-In ct.links edge_id "CORE" "" nodes c f) f.admitted)
  none-Choice r (core _ (no_core _ _ _ e)) _ = e

  -- A broker that `selectFallbackBroker` returns has the id, address and port of a listed node
  -- that is an online edge or core, with an address that is not empty and a positive finite port.
  pub select_fallback_broker-IsUsable :
      (b : Broker)
      → ct.nodes ≡ some nodes
      → select_fallback_broker (some ct) edge_id ip ≡ some b
      → IsUsable nodes b
  select_fallback_broker-IsUsable b e r =
      Choice-IsUsable b
        (subst (Choice ct nodes edge_id ip) r (select_fallback_broker_lem ct nodes edge_id ip e))

  -- It reports `found: false` exactly when no other edge is usable, neither the active nor the
  -- backup core is, and no remaining core is.
  pub select_fallback_broker-eq-none_iff :
      ct.nodes ≡ some nodes → (select_fallback_broker (some ct) edge_id ip ≡ none) ↔ NothingUsable
  select_fallback_broker-eq-none_iff e =
      let h = select_fallback_broker_lem ct nodes edge_id ip e in (Choice-none _ h, none-Choice _ h)
