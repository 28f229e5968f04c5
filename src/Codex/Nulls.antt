-- ===== src/Codex/Nulls.antt =====
-- `dropNullMembers` of internal/codex/parser.go.
use shipmunk_runner.Prelude.{◌≡◌, refl, ap}
use shipmunk_runner.Json.{
  Value, Values, Fields, null, bool, number, str, arr, obj, nil, cons, end, field,
}
use shipmunk_runner.Codex.Structured.{drop_null_members, drop_null_items, drop_null_fields}

abbrev Present : Value → Type 0
Present null = ⊥
Present _ = Unit

-- No object in the value has a member that is null.
abbrev mutual
  pub NoNulls : Value → Type 0
  NoNulls null = Unit
  NoNulls (bool b) = Unit
  NoNulls (number s) = Unit
  NoNulls (str s) = Unit
  NoNulls (arr vs) = NoNullItems vs
  NoNulls (obj fs) = NoNullFields fs

  pub NoNullItems : Values → Type 0
  NoNullItems nil = Unit
  NoNullItems (cons v vs) = NoNulls v × NoNullItems vs

  pub NoNullFields : Fields → Type 0
  NoNullFields end = Unit
  NoNullFields (field k v fs) = Present v × NoNulls v × NoNullFields fs

mutual
  unfolding drop_null_members

  members_dropped : (v : Value) → NoNulls (drop_null_members v)
  members_dropped null = tt
  members_dropped (bool b) = tt
  members_dropped (number s) = tt
  members_dropped (str s) = tt
  members_dropped (arr vs) = items_dropped vs
  members_dropped (obj fs) = fields_dropped fs

  items_dropped : (vs : Values) → NoNullItems (drop_null_items vs)
  items_dropped nil = tt
  items_dropped (cons v vs) = (members_dropped v, items_dropped vs)

  fields_dropped : (fs : Fields) → NoNullFields (drop_null_fields fs)
  fields_dropped end = tt
  fields_dropped (field k null fs) = fields_dropped fs
  fields_dropped (field k (bool b) fs) = (tt, tt, fields_dropped fs)
  fields_dropped (field k (number s) fs) = (tt, tt, fields_dropped fs)
  fields_dropped (field k (str s) fs) = (tt, tt, fields_dropped fs)
  fields_dropped (field k (arr vs) fs) = (tt, items_dropped vs, fields_dropped fs)
  fields_dropped (field k (obj gs) fs) = (tt, fields_dropped gs, fields_dropped fs)

mutual
  unfolding drop_null_members

  members_kept : (v : Value) → NoNulls v → drop_null_members v ≡ v
  members_kept null h = refl
  members_kept (bool b) h = refl
  members_kept (number s) h = refl
  members_kept (str s) h = refl
  members_kept (arr vs) h = ap arr (items_kept vs h)
  members_kept (obj fs) h = ap obj (fields_kept fs h)

  items_kept : (vs : Values) → NoNullItems vs → drop_null_items vs ≡ vs
  items_kept nil h = refl
  items_kept (cons v vs) h = rw (members_kept v h.0) (rw (items_kept vs h.1) refl)

  fields_kept : (fs : Fields) → NoNullFields fs → drop_null_fields fs ≡ fs
  fields_kept end h = refl
  fields_kept (field k null fs) h = absurd (h.0)
  fields_kept (field k (bool b) fs) h = ap (λ gs. field k (bool b) gs) (fields_kept fs h.2)
  fields_kept (field k (number s) fs) h = ap (λ gs. field k (number s) gs) (fields_kept fs h.2)
  fields_kept (field k (str s) fs) h = ap (λ gs. field k (str s) gs) (fields_kept fs h.2)
  fields_kept (field k (arr vs) fs) h = rw (items_kept vs h.1) (rw (fields_kept fs h.2) refl)
  fields_kept (field k (obj gs) fs) h = rw (fields_kept gs h.1) (rw (fields_kept fs h.2) refl)

-- After `dropNullMembers` no object at any depth has a null member, and a value that has none is left as
-- it is; so a second time changes nothing.
pub drop_null_members_lem :
    (v w : Value)
    → NoNulls w
    → NoNulls (drop_null_members v)
      × (drop_null_members w ≡ w)
      × (drop_null_members (drop_null_members v) ≡ drop_null_members v)
drop_null_members_lem v w h =
    (members_dropped v, members_kept w h, members_kept (drop_null_members v) (members_dropped v))
