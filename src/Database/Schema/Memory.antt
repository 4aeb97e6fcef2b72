-- ===== src/Database/Schema/Memory.antt =====
-- A schema in memory, that keeps the laws of `Alembic`: the tables, the newest first, each with its
-- indexes. A table refers to older tables only.
use unitra_service_api.Common.{
  ◌≡◌, Bool, true, false, ◌||◌, ◌&&◌, Option, none, some, List, [], ◌∷◌, if◌then◌else◌, arith,
  Option-cases, inl, inr,
}
use unitra_service_api.Common.Text.{Text, text_eq, text_eq_refl}
use unitra_service_api.Database.Schema.{Column, Table, Alembic}

abbrev Index : Type 0
Index = Text × List Text

abbrev Tables : Type 0
Tables = List (Table × List Index)

has_table : Text → Tables → Bool
has_table n [] = false
has_table n ((t, _) ∷ s) = text_eq t.name n || has_table n s

has_index_in : Text → List Index → Bool
has_index_in i [] = false
has_index_in i ((j, _) ∷ js) = text_eq i j || has_index_in i js

has_index : Text → Tables → Bool
has_index i [] = false
has_index i ((_, is) ∷ s) = has_index_in i is || has_index i s

reference_found : Tables → Option Text → Bool
reference_found s none = true
reference_found s (some n) = has_table n s

references_found : Tables → List Column → Bool
references_found s [] = true
references_found s (c ∷ cs) = reference_found s c.references && references_found s cs

is_name : Text → Option Text → Bool
is_name n none = false
is_name n (some m) = text_eq m n

refers : Text → List Column → Bool
refers n [] = false
refers n (c ∷ cs) = is_name n c.references || refers n cs

pub create_new_table : Table → Tables → Option Tables
create_new_table t s =
    if has_table t.name s
    then none
    else if references_found s t.columns
    then some ((t, []) ∷ s)
    else none

below : {A : Type 0} → A → Option (List A) → Option (List A)
below a none = none
below a (some s) = some (a ∷ s)

pub drop : Text → Tables → Option Tables
drop n [] = none
drop n ((t, is) ∷ s) =
    let rest = drop n s in
    if text_eq t.name n then some s else if refers n t.columns then none else below (t, is) rest

pub add_index : Index → Text → Tables → Option Tables
add_index i n [] = none
add_index i n ((t, is) ∷ s) =
    let rest = add_index i n s in
    if text_eq t.name n then some ((t, i ∷ is) ∷ s) else below (t, is) rest

pub create_new_index : Text → Text → List Text → Tables → Option Tables
create_new_index i n cs s = if has_index i s then none else add_index (i, cs) n s

remove_index : Text → List Index → Option (List Index)
remove_index i [] = none
remove_index i ((j, cs) ∷ js) =
    let rest = remove_index i js in if text_eq i j then some js else below (j, cs) rest

with_indexes : Table → Tables → Option (List Index) → Option Tables
with_indexes t s none = none
with_indexes t s (some is) = some ((t, is) ∷ s)

pub drop_one_index : Text → Text → Tables → Option Tables
drop_one_index i n [] = none
drop_one_index i n ((t, is) ∷ s) =
    let rest = drop_one_index i n s in
    if text_eq t.name n then with_indexes t s (remove_index i is) else below (t, is) rest

pub columns_of : Text → Tables → Option (List Column)
columns_of n [] = none
columns_of n ((t, _) ∷ s) =
    let rest = columns_of n s in if text_eq t.name n then some t.columns else rest

pub drop-create_new_table :
    (t : Table) (s s' : Tables) → create_new_table t s ≡ some s' → drop t.name s' ≡ some s
unfolding create_new_table drop
drop-create_new_table t s s' h = ground (arith, text_eq_refl t.name)

pub drop-add_index :
    (i : Index) (n : Text) (s s' : Tables) → add_index i n s ≡ some s' → drop n s' ≡ drop n s
unfolding add_index drop below
drop-add_index i n [] s' h = cc
drop-add_index i n ((t, is) ∷ s) s' h = elim (Option-cases (add_index i n s)) [
  | inl absent ↦ ground arith
  | inr (x, found) ↦ ground (arith, drop-add_index i n s x found)
]

pub drop_one_index-add_index :
    (i n : Text) (cs : List Text) (s s' : Tables)
    → add_index (i, cs) n s ≡ some s'
    → drop_one_index i n s' ≡ some s
unfolding add_index drop_one_index below with_indexes remove_index
drop_one_index-add_index i n cs [] s' h = cc
drop_one_index-add_index i n cs ((t, is) ∷ s) s' h = elim (Option-cases (add_index (i, cs) n s)) [
  | inl absent ↦ ground (arith, text_eq_refl i)
  | inr (x, found) ↦ ground (arith, drop_one_index-add_index i n cs s x found, text_eq_refl i)
]

pub columns_of-create_new_table :
    (t : Table) (n : Text) (s s' : Tables)
    → create_new_table t s ≡ some s'
    → columns_of n s' ≡ (if text_eq t.name n then some t.columns else columns_of n s)
unfolding create_new_table columns_of
columns_of-create_new_table t n s s' h = ground arith

pub columns_of-add_index :
    (i : Index) (m n : Text) (s s' : Tables)
    → add_index i m s ≡ some s'
    → columns_of n s' ≡ columns_of n s
unfolding add_index columns_of below
columns_of-add_index i m n [] s' h = cc
columns_of-add_index i m n ((t, is) ∷ s) s' h = elim (Option-cases (add_index i m s)) [
  | inl absent ↦ ground arith
  | inr (x, found) ↦ ground (arith, columns_of-add_index i m n s x found)
]

pub add_index-of_create :
    (i n : Text) (cs : List Text) (s s' : Tables)
    → create_new_index i n cs s ≡ some s'
    → add_index (i, cs) n s ≡ some s'
unfolding create_new_index
add_index-of_create i n cs s s' h = ground arith

abbrev pub memory : Alembic
memory = record {
  State = Tables;
  create_table = create_new_table;
  create_index = create_new_index;
  drop_table = drop;
  drop_index = drop_one_index;
  columns = columns_of;
  drop_table-create_table = drop-create_new_table;
  drop_table-create_index =
      λ i n cs s s' h. drop-add_index (i, cs) n s s' (add_index-of_create i n cs s s' h);
  drop_index-create_index =
      λ i n cs s s' h. drop_one_index-add_index i n cs s s' (add_index-of_create i n cs s s' h);
  columns-create_table = columns_of-create_new_table;
  columns-create_index =
      λ i m cs n s s' h. columns_of-add_index (i, cs) m n s s' (add_index-of_create i m cs s s' h);
}

-- Everything that a run of `memory` computes with.
unfoldable pub memory_runs : Unit {0}
unfolding create_new_table create_new_index drop drop_one_index columns_of has_table has_index
    has_index_in reference_found references_found is_name refers below add_index remove_index
    with_indexes text_eq
memory_runs = tt
