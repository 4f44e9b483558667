-- ===== src/Database/NameTables/Rows.antt =====
-- The rows of a names table (src/mmrelay/db_utils.py) under its statements, name by name.
use meshtastic_matrix_relay.Base.{
  ◌≡◌, refl, sym, ap, ◌∙◌, arith, ℕ, zero, suc, ◌+◌, ◌≤◌, String, Bool, true, false, not, none,
  some, List, [], ◌∷◌, ◌++◌, str_eq, eq_iff, length, take, if◌then◌else◌, is_some, ◌&&◌, ◌||◌,
}
use meshtastic_matrix_relay.Py.{contains}
use meshtastic_matrix_relay.Database.Runtime.{Tables, Conn, ok, execute_then}
use meshtastic_matrix_relay.Database.MessageMap.{drop}
use meshtastic_matrix_relay.Database.NameTables.{
  NameTable, longnames, shortnames, table_rows, set_names, name_of, upsert_name, delete_name,
  delete_names, stale_ids, chunks, prune_chunk_size, delete_chunks, delete_stale_names_core,
}

pub name_of-upsert_name :
    (j k v : String) (rows : List (String × String))
    → name_of j (upsert_name k v rows) ≡ (if str_eq j k then some v else name_of j rows)
unfolding name_of upsert_name
name_of-upsert_name j k v [] = refl
name_of-upsert_name j k v ((i, w) ∷ rows) =
    ground (arith, eq_iff j k, eq_iff k i, eq_iff j i, name_of-upsert_name j k v rows)

pub name_of-delete_name :
    (j k : String) (rows : List (String × String))
    → name_of j (delete_name k rows) ≡ (if str_eq j k then none else name_of j rows)
unfolding name_of delete_name
name_of-delete_name j k [] = ground arith
name_of-delete_name j k ((i, w) ∷ rows) =
    ground (arith, eq_iff j k, eq_iff k i, eq_iff j i, name_of-delete_name j k rows)

pub name_of-delete_names :
    (j : String) (ks : List String) (rows : List (String × String))
    → name_of j (delete_names ks rows) ≡ (if contains j ks then none else name_of j rows)
unfolding delete_names
name_of-delete_names j [] rows = refl
name_of-delete_names j (k ∷ ks) rows =
    ground (arith, name_of-delete_names j ks (delete_name k rows), name_of-delete_name j k rows)

pub contains-stale_ids :
    (j : String) (ids : List String) (rows : List (String × String))
    → contains j (stale_ids ids rows) ≡ (not (contains j ids) && is_some (name_of j rows))
unfolding stale_ids name_of
contains-stale_ids j ids [] = ground arith
contains-stale_ids j ids ((k, v) ∷ rows) = ground (arith, eq_iff j k, contains-stale_ids j ids rows)

abbrev flatten : List (List String) → List String
flatten [] = []
flatten (l ∷ ls) = l ++ flatten ls

take-append-drop : (n : ℕ) (l : List String) → take n l ++ drop n l ≡ l
take-append-drop zero l = refl
take-append-drop (suc n) [] = refl
take-append-drop (suc n) (k ∷ l) = ap (λ r. k ∷ r) (take-append-drop n l)

length-drop-le : (n : ℕ) (l : List String) → length (drop n l) ≤ length l
length-drop-le zero l = omega arith
length-drop-le (suc n) [] = omega arith
length-drop-le (suc n) (k ∷ l) = omega (arith, length-drop-le n l)

-- The chunks of a positive size are the whole list.
flatten-chunks :
    (fuel n : ℕ) (l : List String) → length l ≤ fuel → flatten (chunks fuel (suc n) l) ≡ l
unfolding chunks
flatten-chunks zero n [] h = refl
flatten-chunks (suc fuel) n [] h = refl
flatten-chunks zero n (k ∷ l) h = absurd (omega arith)
flatten-chunks (suc fuel) n (k ∷ l) h =
    ap (λ r. take (suc n) (k ∷ l) ++ r)
      (flatten-chunks fuel n (drop n l) (omega (arith, length-drop-le n l)))
    ∙ take-append-drop (suc n) (k ∷ l)

contains-append :
    (j : String) (l m : List String) → contains j (l ++ m) ≡ (contains j l || contains j m)
contains-append j [] m = refl
contains-append j (k ∷ l) m = ground (arith, contains-append j l m)

abbrev pub same_table : NameTable → NameTable → Bool
same_table longnames longnames = true
same_table shortnames shortnames = true
same_table _ _ = false

-- A statement on one table leaves the other.
pub name_of-set_names :
    (nt table : NameTable) (j : String) (g : List (String × String) → List (String × String))
    (t : Tables)
    → name_of j (table_rows nt (set_names table (g (table_rows table t)) t)) ≡ (
        if same_table nt table
        then name_of j (g (table_rows nt t))
        else name_of j (table_rows nt t))
name_of-set_names longnames longnames j g t = refl
name_of-set_names longnames shortnames j g t = refl
name_of-set_names shortnames longnames j g t = refl
name_of-set_names shortnames shortnames j g t = refl

delete_chunks-names :
    (nt table : NameTable) (j : String) (ls : List (List String)) (n : ℕ) (c : Conn) (m : ℕ)
    → (delete_chunks table ls n c).0 ≡ ok m
    → name_of j (table_rows nt (delete_chunks table ls n c).1.tables) ≡ (
        if same_table nt table && contains j (flatten ls)
        then none
        else name_of j (table_rows nt c.tables))
unfolding delete_chunks
delete_chunks-names nt table j [] n c m h = ground arith
delete_chunks-names nt table j (l ∷ ls) n c m h =
    let (c', deleted, same) = execute_then _ (λ _. delete_chunks table ls (n + length l)) c h in
    rw same (
      ground (
        arith,
        delete_chunks-names nt table j ls (n + length l) c' m (sym (ap (λ r. r.0) same) ∙ h),
        contains-append j l (flatten ls),
        ap (λ t. name_of j (table_rows nt t)) deleted,
        name_of-set_names nt table j (delete_names l) c.tables,
        name_of-delete_names j l (table_rows nt c.tables),
      ))

-- A stale name is gone, and a name of a current node stays.
pub delete_stale_names_core-names :
    (nt table : NameTable) (j : String) (ids : List String) (c : Conn) (m : ℕ)
    → (delete_stale_names_core table ids c).0 ≡ ok m
    → name_of j (table_rows nt (delete_stale_names_core table ids c).1.tables) ≡ (
        if same_table nt table && not (contains j ids)
        then none
        else name_of j (table_rows nt c.tables))
unfolding delete_stale_names_core
delete_stale_names_core-names nt table j ids c m h =
    let (c', kept, same) =
      execute_then _ (λ stale. delete_chunks table (chunks (length stale) prune_chunk_size stale) 0)
        c h in
    rw same (
      pruned nt table (stale_ids ids (table_rows table c.tables)) c' kept
        (sym (ap (λ r. r.0) same) ∙ h) (contains-stale_ids j ids (table_rows table c.tables)))
  where
    pruned :
        (nt table : NameTable) (stale : List String) (c' : Conn)
        → c'.tables ≡ c.tables
        → (delete_chunks table (chunks (length stale) prune_chunk_size stale) 0 c').0 ≡ ok m
        → contains j stale
          ≡ (not (contains j ids) && is_some (name_of j (table_rows table c.tables)))
        → name_of j (
            table_rows nt
              (delete_chunks table (chunks (length stale) prune_chunk_size stale) 0 c').1.tables)
          ≡ (if same_table nt table && not (contains j ids)
              then none
              else name_of j (table_rows nt c.tables))
    pruned longnames longnames stale c' kept h found = ground (
      arith,
      delete_chunks-names longnames longnames j (chunks (length stale) prune_chunk_size stale) 0 c'
          m h,
      ap (λ l. contains j l) (flatten-chunks (length stale) 499 stale (omega arith)),
      ap (λ t. name_of j (table_rows longnames t)) kept,
      found,
    )
    pruned shortnames shortnames stale c' kept h found = ground (
      arith,
      delete_chunks-names shortnames shortnames j (chunks (length stale) prune_chunk_size stale) 0
          c' m h,
      ap (λ l. contains j l) (flatten-chunks (length stale) 499 stale (omega arith)),
      ap (λ t. name_of j (table_rows shortnames t)) kept,
      found,
    )
    pruned longnames shortnames stale c' kept h found = ground (
      arith,
      delete_chunks-names longnames shortnames j (chunks (length stale) prune_chunk_size stale) 0 c'
          m h,
      ap (λ t. name_of j (table_rows longnames t)) kept,
    )
    pruned shortnames longnames stale c' kept h found = ground (
      arith,
      delete_chunks-names shortnames longnames j (chunks (length stale) prune_chunk_size stale) 0 c'
          m h,
      ap (λ t. name_of j (table_rows shortnames t)) kept,
    )
