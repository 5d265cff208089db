-- ===== src/Client/Graph/Joined/Entries.antt =====
-- topologyGraphModel.js: what the loop over the links does to the entries it gathers.
use io_t_midterm_availabilit.Base.{
  String, ◌≢◌, subst, inl, inr, Option, List, [], ◌∷◌, ◌++◌, arith, ◌=ₛ◌, eq_iff, Bool-cases, In,
  here, there, In-cons, Pairs,
}
use io_t_midterm_availabilit.Js.Number.{Number}
use io_t_midterm_availabilit.Client.Graph.Joined.{Entry, values_of, add_entry}

abbrev pub OtherKey : Entry → Entry → Type 0
OtherKey a b = a.key ≢ b.key

-- What the loop does to the entries, one at a time.
module _ (key from to : String) (rtt : Option Number) where
  abbrev fresh : Entry
  fresh = record { key = key; from_id = from; to_id = to; rtt_values = values_of rtt }

  abbrev longer : Entry → Entry
  longer e = record e { rtt_values = e.rtt_values ++ values_of rtt }

  pub add_entry-Every :
      (P : Entry → Type 0) (es : List Entry)
      → ((e : Entry) → In e es → P e)
      → P fresh
      → ((e : Entry) → P e → P (longer e))
      → (e : Entry) → In e (add_entry key from to rtt es)
      → P e
  unfolding add_entry
  add_entry-Every P [] h new grow e i = elim (In-cons i) [
    | inl same ↦ rw same new
    | inr j ↦ elim j [ ]
  ]
  add_entry-Every P (d ∷ es) h new grow e i = elim (Bool-cases (d.key =ₛ key)) [
    | inl q ↦ elim (In-cons (subst (In e) (rw q) i)) [
      | inl same ↦ rw same (grow d (h d here))
      | inr j ↦ h e (there j)
    ]
    | inr q ↦ elim (In-cons (subst (In e) (rw q) i)) [
      | inl same ↦ rw same (h d here)
      | inr j ↦ add_entry-Every P es (λ x k. h x (there k)) new grow e j
    ]
  ]

  pub add_entry-Pairs :
      (es : List Entry) → Pairs OtherKey es → Pairs OtherKey (add_entry key from to rtt es)
  unfolding add_entry
  add_entry-Pairs [] h = (λ y i. elim i [ ], tt)
  add_entry-Pairs (d ∷ es) h = elim (Bool-cases (d.key =ₛ key)) [
    | inl q ↦ rw q h
    | inr q ↦ rw q (
      add_entry-Every (OtherKey d) es h.0 (ground (arith, eq_iff d.key key)) (λ e p. p),
      add_entry-Pairs es h.1,
    )
  ]
