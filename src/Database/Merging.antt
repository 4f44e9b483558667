-- ===== src/Database/Merging.antt =====
-- Two nodes of a snapshot with one id (`_merge_node_name_values`, src/mmrelay/db_utils.py).
use meshtastic_matrix_relay.Base.{
  ◌≡◌, refl, arith, String, true, false, Option, none, some, [], ◌∷◌, str_eq, eq_iff,
}
use meshtastic_matrix_relay.Database.Snapshot.{
  Snapshot, entry, find_entry, put_entry, merge_entry, merge_node_name_values, place_entry,
  add_names,
}

-- Merging two values does not depend on their order.
pub merge_comm : (v w : Option String) → merge_node_name_values v w ≡ merge_node_name_values w v
unfolding merge_node_name_values
merge_comm none none = refl
merge_comm none (some b) = refl
merge_comm (some a) none = refl
merge_comm (some a) (some b) = ground (arith, eq_iff a b, eq_iff b a)

abbrev three : String → Option String → String → String → String → Snapshot → Snapshot
three k short a b c s =
    add_names k (some c) short (add_names k (some b) short (add_names k (some a) short s))

abbrev at_start : Snapshot
at_start = record { state_by_id = []; current_ids = []; skipped_ids = []; complete = true }

-- The merging of three entries of one id depends on their order: of two different long names `a`
-- and `b` under one short name, `a` comes out where `b` stands between two entries with `a`, and no
-- long name where `b` stands last.
pub three-order :
    (k short a b : String)
    → str_eq a b ≡ false
    → ((three k (some short) a b a at_start).state_by_id ≡ entry k (some a) (some short) ∷ [])
      × ((three k (some short) a a b at_start).state_by_id ≡ entry k none (some short) ∷ [])
unfolding add_names place_entry merge_entry merge_node_name_values find_entry put_entry
three-order k short a b h = (
  ground (arith, eq_iff k k, eq_iff short short, eq_iff a b),
  ground (arith, eq_iff k k, eq_iff short short, eq_iff a a),
)
