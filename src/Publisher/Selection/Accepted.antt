-- ===== src/Publisher/Selection/Accepted.antt =====
-- `shouldAcceptCtUpdate` and `shouldReturnToPrimary`: when a table is stored, and when it has the
-- primary online.
use io_t_midterm_availabilit.Base.{
  String, ◌≡◌, refl, ◌↔◌, true, Option, none, some, Option-cases, List, In, any, any-In, In-any,
  arith, and-eq-true, inl, inr,
}
use io_t_midterm_availabilit.Js.Number.{Number, num_ltb}
use io_t_midterm_availabilit.Js.Value.{
  Value, num, str, truthy, strict_eq, is_text, is_text_iff, is_number, is_string,
}
use io_t_midterm_availabilit.Publisher.Ct.{Ct, Node, Link}
use io_t_midterm_availabilit.Publisher.Selection.{
  is_newer, is_some_list, is_well_formed, is_primary_online, should_accept_ct_update,
  should_return_to_primary,
}

-- A value is a number, or a text.
abbrev pub IsNumber : Value → Type 0
IsNumber v = (n : Number) × (v ≡ num n)

abbrev pub IsText : Value → Type 0
IsText v = (t : String) × (v ≡ str t)

-- A table that may be stored: it has all its parts, and a version that is greater than that of the
-- stored table, where both are numbers.
pub record IsAcceptable (stored : Option Ct) (next : Ct) : Type 0 where
  pub version : IsNumber next.version
  pub nodes : (ns : List Node) × (next.nodes ≡ some ns)
  pub links : (ls : List Link) × (next.links ≡ some ls)
  pub active : IsText next.active_core_id
  pub backup : IsText next.backup_core_id
  pub newer :
      (c : Ct) (old new : Number)
      → stored ≡ some c
      → c.version ≡ num old
      → next.version ≡ num new
      → num_ltb old new ≡ true

abbrev pub IsOnlineAs : Value → Node → Type 0
IsOnlineAs id n = (strict_eq n.id id ≡ true) × (n.status ≡ str "ONLINE")

-- A node with the id is listed as online.
abbrev pub ShowsOnline : Ct → Value → Type 0
ShowsOnline next id =
    (truthy id ≡ true)
    × ((ns : List Node) × (next.nodes ≡ some ns) × ((n : Node) × In n ns × IsOnlineAs id n))

is_number-IsNumber : (v : Value) → is_number v ≡ true → IsNumber v
is_number-IsNumber (num n) h = (n, refl)
is_number-IsNumber _ h = cc

is_string-IsText : (v : Value) → is_string v ≡ true → IsText v
is_string-IsText (str t) h = (t, refl)
is_string-IsText _ h = cc

list_of {ℓ} :
    {A : Type ℓ} (o : Option (List A)) → is_some_list o ≡ true → (xs : List A) × (o ≡ some xs)
list_of none h = cc
list_of (some xs) h = (xs, refl)

-- The version `next` is greater than `old`, where both are numbers.
abbrev IsNewer : Value → Value → Type 0
IsNewer next old = (m n : Number) → old ≡ num m → next ≡ num n → num_ltb m n ≡ true

is_newer-IsNewer : (next old : Value) → is_newer next old ≡ true → IsNewer next old
is_newer-IsNewer next old h m n p q = rw (p, q) at h

IsNewer-is_newer : (next old : Value) → IsNewer next old → is_newer next old ≡ true
IsNewer-is_newer (num n) (num m) h = h m n refl refl
IsNewer-is_newer (num n) _ h = refl
IsNewer-is_newer _ _ h = refl

well_formed :
    (next : Ct)
    → is_well_formed next ≡ true
    → IsNumber next.version
      × ((ns : List Node) × (next.nodes ≡ some ns))
      × ((ls : List Link) × (next.links ≡ some ls))
      × IsText next.active_core_id
      × IsText next.backup_core_id
unfolding is_well_formed
well_formed next h = (
  is_number-IsNumber next.version (ground (arith, h)),
  list_of next.nodes (ground (arith, h)),
  list_of next.links (ground (arith, h)),
  is_string-IsText next.active_core_id (ground (arith, h)),
  is_string-IsText next.backup_core_id (ground (arith, h)),
)

IsAcceptable-is_well_formed :
    (stored : Option Ct) (next : Ct) → IsAcceptable stored next → is_well_formed next ≡ true
unfolding is_well_formed
IsAcceptable-is_well_formed stored next a =
    rw (a.version.1, a.nodes.1, a.links.1, a.active.1, a.backup.1) refl

should_accept_ct_update-IsAcceptable :
    (stored : Option Ct) (next : Ct)
    → should_accept_ct_update stored (some next) ≡ true
    → IsAcceptable stored next
unfolding should_accept_ct_update
should_accept_ct_update-IsAcceptable none next h =
    let (version, nodes, links, active, backup) = well_formed next h in
    record {
      version = version;
      nodes = nodes;
      links = links;
      active = active;
      backup = backup;
      newer = λ c m n e. cc;
    }
should_accept_ct_update-IsAcceptable (some previous) next h =
    let (whole, newer) =
      and-eq-true (is_well_formed next) (is_newer next.version previous.version) h in
    let (version, nodes, links, active, backup) = well_formed next whole in
    record {
      version = version;
      nodes = nodes;
      links = links;
      active = active;
      backup = backup;
      newer = λ c m n e p q.
          let same : previous ≡ c = cc in
          is_newer-IsNewer next.version previous.version newer m n (rw same p) q;
    }

IsAcceptable-should_accept_ct_update :
    (stored : Option Ct) (next : Ct)
    → IsAcceptable stored next
    → should_accept_ct_update stored (some next) ≡ true
unfolding should_accept_ct_update
IsAcceptable-should_accept_ct_update none next a = IsAcceptable-is_well_formed none next a
IsAcceptable-should_accept_ct_update (some previous) next a =
    rw
      (
        IsAcceptable-is_well_formed (some previous) next a,
        IsNewer-is_newer next.version previous.version (λ m n p q. a.newer previous m n refl p q),
      )
      refl

pub should_accept_ct_update_iff :
    (stored : Option Ct) (next : Ct)
    → (should_accept_ct_update stored (some next) ≡ true) ↔ IsAcceptable stored next
should_accept_ct_update_iff stored next = (
  should_accept_ct_update-IsAcceptable stored next,
  IsAcceptable-should_accept_ct_update stored next,
)

is_primary_online_iff : (id : Value) (n : Node) → (is_primary_online id n ≡ true) ↔ IsOnlineAs id n
is_primary_online_iff id n = (
  λ h.
      let (same, online) = and-eq-true (strict_eq n.id id) (is_text n.status "ONLINE") h in
      (same, (is_text_iff n.status "ONLINE").0 online),
  λ h. rw (h.0, (is_text_iff n.status "ONLINE").1 h.1) refl,
)

should_return_to_primary-ShowsOnline :
    (next : Ct) (id : Value) → should_return_to_primary (some next) id ≡ true → ShowsOnline next id
unfolding should_return_to_primary
should_return_to_primary-ShowsOnline next id h = elim (Option-cases next.nodes) [
  | inl absent ↦ ground (arith, absent, h)
  | inr (ns, e) ↦
      let (known, some_online) =
        and-eq-true (truthy id) (any (is_primary_online id) ns) (rw e at h) in
      (
        known,
        (
          ns,
          e,
          any-In (is_primary_online id) (IsOnlineAs id) (is_primary_online_iff id) ns some_online,
        ),
      )
]

ShowsOnline-should_return_to_primary :
    (next : Ct) (id : Value) → ShowsOnline next id → should_return_to_primary (some next) id ≡ true
unfolding should_return_to_primary
ShowsOnline-should_return_to_primary next id (known, (ns, e, (n, i, online))) =
    rw
      (
        e,
        known,
        In-any (is_primary_online id) (IsOnlineAs id) (is_primary_online_iff id) ns n i online,
      )
      refl

pub should_return_to_primary_iff :
    (next : Ct) (id : Value)
    → (should_return_to_primary (some next) id ≡ true) ↔ ShowsOnline next id
should_return_to_primary_iff next id =
    (should_return_to_primary-ShowsOnline next id, ShowsOnline-should_return_to_primary next id)
