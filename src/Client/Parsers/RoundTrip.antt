-- ===== src/Client/Parsers/RoundTrip.antt =====
-- Reading a Connection Table.
use io_t_midterm_availabilit.Base.{
  String, ◌≡◌, refl, Option, some, List, [], ◌∷◌, arith, Option-cases, subst, inl, inr,
}
use io_t_midterm_availabilit.Js.Number.{Number}
use io_t_midterm_availabilit.Js.Value.{
  Value, num, str, arr, obj, Elements, nil, cons, Members, end, member, get,
}
use io_t_midterm_availabilit.Client.Parsers.{
  Node, Link, Table, parsed_node, parsed_link, map_entries, checked, with_entries,
  parse_connection_table,
}

abbrev node_members : Node → Members
node_members n =
    (member "id" n.id (
      member "role" n.role (
        member "ip" n.ip (
          member "port" n.port (
            member "status" n.status (
              member "previous_status" n.previous_status (
                member "status_changed_at" n.status_changed_at
                  (member "hop_to_core" n.hop_to_core end))))))))

abbrev link_members : Link → Members
link_members l = member "from_id" l.from_id (member "to_id" l.to_id (member "rtt_ms" l.rtt_ms end))

abbrev pub node_value : Node → Value
node_value n = obj (node_members n)

abbrev pub link_value : Link → Value
link_value l = obj (link_members l)

abbrev pub values_of {ℓ} : {A : Type ℓ} → (A → Value) → List A → Elements
values_of f [] = nil
values_of f (x ∷ xs) = cons (f x) (values_of f xs)

-- The JSON object of a table.
abbrev pub table_value : Table → Value
table_value t = obj (
    member "version" (num t.version) (
      member "last_update" t.last_update (
        member "active_core_id" (str t.active_core_id) (
          member "backup_core_id" (str t.backup_core_id) (
            member "nodes" (arr (values_of node_value t.nodes))
              (member "links" (arr (values_of link_value t.links)) end))))))

node_round :
    (last n : Value) → parsed_node last (node_value (parsed_node last n)) ≡ parsed_node last n
unfolding get
node_round last n = ground arith

link_round : (l : Value) → parsed_link (link_value (parsed_link l)) ≡ parsed_link l
unfolding get
link_round l = refl

-- Entries that were read, written as objects and read again.
entries_round {ℓ} :
    {A : Type ℓ} (f : Value → A) (members : A → Members) (vs : Elements) (xs : List A)
    → ((v : Value) → f (obj (members (f v))) ≡ f v)
    → map_entries f vs ≡ some xs
    → map_entries f (values_of (λ x. obj (members x)) xs) ≡ some xs
unfolding map_entries
entries_round f members nil [] h e = refl
entries_round f members nil (x ∷ xs) h e = cc
entries_round f members (cons v vs) [] h e = ground arith
entries_round f members (cons v vs) (x ∷ xs) h e =
    ground (arith, entries_round f members vs xs h, h v)

-- The parser on the six properties of a table.
abbrev again : Table → Option Table
again t =
    checked (num t.version) t.last_update (str t.active_core_id) (str t.backup_core_id)
      (arr (values_of node_value t.nodes)) (arr (values_of link_value t.links))

with_entries_round :
    (version : Number) (last : Value) (a b : String) (ns : List Node) (ls : List Link)
    (vs ws : Elements)
    → map_entries (parsed_node last) vs ≡ some ns
    → map_entries parsed_link ws ≡ some ls
    → again (record {
      version = version;
      last_update = last;
      active_core_id = a;
      backup_core_id = b;
      nodes = ns;
      links = ls;
    })
      ≡ with_entries version last a b (some ns) (some ls)
with_entries_round version last a b ns ls vs ws p q = rw (
  entries_round (parsed_node last) node_members vs ns (node_round last) p,
  entries_round parsed_link link_members ws ls link_round q,
)

checked_round :
    (version last active backup nodes links : Value) (t : Table)
    → checked version last active backup nodes links ≡ some t
    → again t ≡ some t
checked_round (num version) last (str a) (str b) (arr vs) (arr ws) t e =
    elim (Option-cases (map_entries (parsed_node last) vs)) [
      | inl n ↦ ground arith
      | inr (ns, p) ↦ elim (Option-cases (map_entries parsed_link ws)) [
        | inl n ↦ ground arith
        | inr (ls, q) ↦
            let r : with_entries version last a b (some ns) (some ls) ≡ some t = rw (p, q) at e in
            subst (λ t'. again t' ≡ some t') (cc r)
              (with_entries_round version last a b ns ls vs ws p q)
      ]
    ]
checked_round _ last _ _ _ _ t e = ground arith

-- Publishing an accepted table again changes nothing: the object of the fields that the parser
-- returned is accepted, and read as the same table.
pub parse_connection_table-table_value :
    (v : Value) (t : Table)
    → parse_connection_table (some v) ≡ some t
    → parse_connection_table (some (table_value t)) ≡ some t
unfolding parse_connection_table get
parse_connection_table-table_value v t e =
    checked_round (get v "version") (get v "last_update") (get v "active_core_id")
      (get v "backup_core_id") (get v "nodes") (get v "links") t e
