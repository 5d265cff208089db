-- ===== src/Client/Visibility/Endpoints.antt =====
-- The map `nodeByEndpoint` of `buildPresentationTopology`: one node for each endpoint, online where
-- any of them is.
use io_t_midterm_availabilit.Base.{
  String, ◌≡◌, ◌≢◌, refl, true, List, [], ◌∷◌, arith, All, In, here, there, ◌=ₛ◌, eq_iff,
  Bool-cases, inl, inr, some,
}
use io_t_midterm_availabilit.Js.Number.{Number}
use io_t_midterm_availabilit.Client.Parsers.{Node}
use io_t_midterm_availabilit.Client.Visibility.{
  is_online, add_node, prefer_presentation_node, endpoint_key, by_endpoint,
}

abbrev pub KeyAbsent : String → List (String × Node) → Type 0
KeyAbsent k = All λ p. p.0 ≢ k

abbrev pub HasDistinctKeys : List (String × Node) → Type 0
HasDistinctKeys [] = Unit {0}
HasDistinctKeys ((k, n) ∷ m) = KeyAbsent k m × HasDistinctKeys m

KeyAbsent-add_node :
    (j k : String) (n : Node) (m : List (String × Node))
    → k ≢ j
    → KeyAbsent j m
    → KeyAbsent j (add_node k n m)
unfolding add_node
KeyAbsent-add_node j k n [] h a = (h, tt)
KeyAbsent-add_node j k n ((i, x) ∷ m) h a = ground (arith, KeyAbsent-add_node j k n m h)

pub HasDistinctKeys-add_node :
    (k : String) (n : Node) (m : List (String × Node))
    → HasDistinctKeys m
    → HasDistinctKeys (add_node k n m)
unfolding add_node
HasDistinctKeys-add_node k n [] d = (tt, tt)
HasDistinctKeys-add_node k n ((i, x) ∷ m) d = elim (Bool-cases (i =ₛ k)) [
  | inl e ↦ rw e d
  | inr e ↦
      let ne : k ≢ i = ground (arith, eq_iff i k) in
      rw e (KeyAbsent-add_node i k n m ne d.0, HasDistinctKeys-add_node k n m d.1)
]

prefer_cases :
    (P : Node → Type 0) (x n : Node) → P x → P n → P (prefer_presentation_node (some x) n)
prefer_cases P x n p q = elim (Bool-cases (is_online x)) [
  | inl e ↦ rw e p
  | inr e ↦ elim (Bool-cases (is_online n)) [ inl f ↦ rw (e, f) q | inr f ↦ rw (e, f) p ]
]

pub All-add_node :
    (P : String → Node → Type 0) (k : String) (n : Node) (m : List (String × Node))
    → P k n
    → All (λ p. P p.0 p.1) m
    → All (λ p. P p.0 p.1) (add_node k n m)
unfolding add_node
All-add_node P k n [] p h = (p, tt)
All-add_node P k n ((i, x) ∷ m) p h = elim (Bool-cases (i =ₛ k)) [
  | inl e ↦ let q : P i n = rw ((eq_iff i k).0 e) p in rw e (prefer_cases (P i) x n h.0 q, h.1)
  | inr e ↦ rw e (h.0, All-add_node P k n m p h.1)
]

-- An entry stands for a node: its key, and online where the node is.
abbrev StandsFor : String → Node → String × Node → Type 0
StandsFor k n p = (p.0 ≡ k) × (is_online n ≡ true → is_online p.1 ≡ true)

abbrev pub Covers : String → Node → List (String × Node) → Type 0
Covers k n m = (p : String × Node) × In p m × StandsFor k n p

Covers-there :
    (k : String) (n : Node) (q : String × Node) (m : List (String × Node))
    → Covers k n m
    → Covers k n (q ∷ m)
Covers-there k n q m (p, i, s) = (p, there i, s)

pub add_node-Covers :
    (k : String) (n : Node) (m : List (String × Node)) → Covers k n (add_node k n m)
unfolding add_node
add_node-Covers k n [] = ((k, n), here, (refl, λ o. o))
add_node-Covers k n ((i, x) ∷ m) = elim (Bool-cases (i =ₛ k)) [
  | inl e ↦
      rw e ((i, prefer_presentation_node (some x) n), here, ((eq_iff i k).0 e, λ o. ground arith))
  | inr e ↦ rw e (Covers-there k n (i, x) _ (add_node-Covers k n m))
]

pub Covers-add_node :
    (j : String) (y : Node) (k : String) (n : Node) (m : List (String × Node))
    → Covers j y m
    → Covers j y (add_node k n m)
unfolding add_node
Covers-add_node j y k n [] (p, i, s) = elim i [ ]
Covers-add_node j y k n ((i, x) ∷ m) (p, here, s) = elim (Bool-cases (i =ₛ k)) [
  | inl e ↦
      rw e
        ((i, prefer_presentation_node (some x) n), here, (s.0, λ o. let o' = s.1 o in ground arith))
  | inr e ↦ rw e ((i, x), here, s)
]
Covers-add_node j y k n ((i, x) ∷ m) (p, there t, s) = elim (Bool-cases (i =ₛ k)) [
  | inl e ↦ rw e (p, there t, s)
  | inr e ↦ rw e (Covers-there j y (i, x) _ (Covers-add_node j y k n m (p, t, s)))
]

-- The map over the candidates, from any map.
module _ (number_text : Number → String) where
  abbrev key : Node → String
  key = endpoint_key number_text

  pub by_endpoint-HasDistinctKeys :
      (m : List (String × Node)) (ns : List Node)
      → HasDistinctKeys m
      → HasDistinctKeys (by_endpoint number_text m ns)
  unfolding by_endpoint
  by_endpoint-HasDistinctKeys m [] d = d
  by_endpoint-HasDistinctKeys m (n ∷ ns) d =
      by_endpoint-HasDistinctKeys (add_node (key n) n m) ns (HasDistinctKeys-add_node (key n) n m d)

  pub by_endpoint-All :
      (P : String → Node → Type 0) (m : List (String × Node)) (ns : List Node)
      → All (λ n. P (endpoint_key number_text n) n) ns
      → All (λ p. P p.0 p.1) m
      → All (λ p. P p.0 p.1) (by_endpoint number_text m ns)
  unfolding by_endpoint
  by_endpoint-All P m [] h k = k
  by_endpoint-All P m (n ∷ ns) h k =
      by_endpoint-All P (add_node (key n) n m) ns h.1 (All-add_node P (key n) n m h.0 k)

  Covers-by_endpoint :
      (j : String) (y : Node) (m : List (String × Node)) (ns : List Node)
      → Covers j y m
      → Covers j y (by_endpoint number_text m ns)
  unfolding by_endpoint
  Covers-by_endpoint j y m [] c = c
  Covers-by_endpoint j y m (n ∷ ns) c =
      Covers-by_endpoint j y (add_node (key n) n m) ns (Covers-add_node j y (key n) n m c)

  pub by_endpoint-Covers :
      (n : Node) (m : List (String × Node)) (ns : List Node)
      → In n ns
      → Covers (endpoint_key number_text n) n (by_endpoint number_text m ns)
  unfolding by_endpoint
  by_endpoint-Covers n m [] i = elim i [ ]
  by_endpoint-Covers n m (x ∷ ns) here =
      Covers-by_endpoint (key n) n _ ns (add_node-Covers (key n) n m)
  by_endpoint-Covers n m (x ∷ ns) (there i) = by_endpoint-Covers n (add_node (key x) x m) ns i
