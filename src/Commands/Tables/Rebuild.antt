-- ===== src/Commands/Tables/Rebuild.antt =====
-- A table that is built anew from the entries that `for_each` of src/storage/hash_table.h visits.
use mathlib.Core.Option.{or_else}
use gredis.Base.Bytes.{Bytes, bytes_eq_refl}
use gredis.Base.{
  ◌≤◌, ◌<◌, ◌≡◌, ◌∙◌, refl, ap₂, arith, Option, none, some, List, [], ◌∷◌, ltb, length,
}
use gredis.Commands.Tables.Laws.{assigned, number_new, insert_entries-Models}
use gredis.Commands.Tables.{insert_entries}
use gredis.Storage.HashTable.Invariant.{IsValid, view, Models, empty_table-Models}
use gredis.Storage.HashTable.Strings.{string_key}
use gredis.Storage.HashTable.Update.{is_some, update}
use gredis.Storage.HashTable.Visit.{assoc, times, for_each-view}
use gredis.Storage.HashTable.{HashTable, size, for_each, empty_table}

module _ {V : Type 0} where
  pub times-assoc : (p : Bytes) (es : List (Bytes × V)) → is_some (assoc p es) ≡ ltb 0 (times p es)
  unfolding times assoc
  times-assoc p [] = refl
  times-assoc p ((m, x) ∷ es) = ground (arith, times-assoc p es)

  -- entries with no key twice, stored one after the other
  assigned-assoc :
      (es : List (Bytes × V)) (f : Bytes → Option V) (p : Bytes)
      → ((q : Bytes) → times q es ≤ 1)
      → assigned es f p ≡ or_else (assoc p es) (f p)
  unfolding assigned assoc times or_else
  assigned-assoc [] f p once = refl
  assigned-assoc ((q, x) ∷ es) f p once =
      let rest = assigned-assoc es (update f q (some x)) p (λ r. omega (arith, once r)) in
      rest ∙ (ground (arith, once p, times-assoc p es))

  number_new-length :
      (es : List (Bytes × V)) (f : Bytes → Option V)
      → ((q : Bytes) → times q es ≤ 1)
      → ((q : Bytes) → 0 < times q es → f q ≡ none)
      → number_new es f ≡ length es
  unfolding number_new times
  number_new-length [] f once fresh = refl
  number_new-length ((q, x) ∷ es) f once fresh =
      let here : f q ≡ none = fresh q (ground (arith, bytes_eq_refl q)) in
      let rest =
        number_new-length es (update f q (some x)) (λ r. omega (arith, once r))
          (λ r h. ground (arith, once r, fresh r)) in
      rw here (omega (arith, rest))

  or_none : (o : Option V) → or_else o none ≡ o
  unfolding or_else
  or_none none = refl
  or_none (some x) = refl

  -- The table that is built from the entries of a valid one is valid and stands for the same map.
  pub rebuild-Models :
      (t : HashTable Bytes V)
      → IsValid t
      → Models (view t) (size t) (insert_entries (for_each t) empty_table).1
  rebuild-Models t v =
      let (found, once, counted) = for_each-view t v in
      let (_, m) = insert_entries-Models (for_each t) empty_table empty_table-Models.valid in
      let e = empty_table-Models {K = Bytes} {V = V} in
      record {
        valid = m.valid;
        reads = λ p.
            m.reads p
            ∙ assigned-assoc (for_each t) (view empty_table) p once
            ∙ ap₂ or_else (found p) (e.reads p)
            ∙ or_none (view t p);
        sized =
            m.sized
            ∙ omega (
              arith,
              e.sized,
              counted,
              number_new-length (for_each t) (view empty_table) once (λ q h. e.reads q),
            );
      }
