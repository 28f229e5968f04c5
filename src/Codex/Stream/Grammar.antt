-- ===== src/Codex/Stream/Grammar.antt =====
-- The events of the items in a stream that `Parse` of internal/codex/parser.go accepts.
use shipmunk_runner.Prelude.{
  ℕ, zero, suc, ◌≡◌, ◌⊎◌, inl, inr, refl, ap, sym, subst, ◌∙◌, Bool, true, false, Bytes, bytes_eq,
  bytes_eq_iff, Option, none, some, List, [], ◌∷◌, ◌++◌, Bool-cases, arith, if◌then◌else◌,
}
use mathlib.Core.List.{append_assoc, append-nil}
use shipmunk_runner.Codex.Events.{
  Phase, started, updated, completed, EventType, item_phase, thread_started, turn_started,
  turn_completed, native_error, turn_failed, other, Event, ItemState, Items, item_of, set_item,
  has_unfinished, may_follow, is_started, is_completed,
}

-- A phase of an item, with the item's type.
abbrev pub Stage : Type 0
Stage = Phase × Bytes

abbrev pub stage : EventType → Bytes → List Stage
stage (item_phase phase) kind = (phase, kind) ∷ []
stage thread_started kind = []
stage turn_started kind = []
stage turn_completed kind = []
stage native_error kind = []
stage turn_failed kind = []
stage other kind = []

abbrev pub stage_of : Bytes → Event → List Stage
stage_of id e = if bytes_eq e.item_id id then stage e.event_type e.item_type else []

-- What the events tell of one item.
abbrev pub stages : Bytes → List Event → List Stage
stages id [] = []
stages id (e ∷ es) = stage_of id e ++ stages id es

abbrev pub updates : Bytes → ℕ → List Stage
updates kind zero = []
updates kind (suc n) = (updated, kind) ∷ updates kind n

-- An item that is completed at once, or is started, updated any number of times and completed.
abbrev pub IsWhole : Bytes → List Stage → Type 0
IsWhole kind l =
    (l ≡ (completed, kind) ∷ [])
    ⊎ ((n : ℕ) × (l ≡ (started, kind) ∷ (updates kind n ++ ((completed, kind) ∷ []))))

abbrev pub IsOpen : Bytes → List Stage → Type 0
IsOpen kind l = (n : ℕ) × (l ≡ (started, kind) ∷ updates kind n)

abbrev pub Stands : Bool → Bytes → List Stage → Type 0
Stands true kind l = IsWhole kind l
Stands false kind l = IsOpen kind l

abbrev pub Matches : Option ItemState → List Stage → Type 0
Matches none l = l ≡ []
Matches (some i) l = Stands i.complete i.kind l

pub stages_append :
    (id : Bytes) (es fs : List Event) → stages id (es ++ fs) ≡ stages id es ++ stages id fs
stages_append id [] fs = refl
stages_append id (e ∷ es) fs =
    ap (λ l. stage_of id e ++ l) (stages_append id es fs)
    ∙ sym (append_assoc (stage_of id e) (stages id es) (stages id fs))

updates_snoc :
    (kind : Bytes) (n : ℕ) → updates kind n ++ ((updated, kind) ∷ []) ≡ updates kind (suc n)
updates_snoc kind zero = refl
updates_snoc kind (suc n) = ap (λ l. (updated, kind) ∷ l) (updates_snoc kind n)

follow_none :
    (kind : Bytes) (phase : Phase) (l : List Stage)
    → l ≡ []
    → may_follow none kind phase ≡ true
    → Stands (is_completed phase) kind (l ++ ((phase, kind) ∷ []))
unfolding may_follow
follow_none kind started l h m = (0, rw h refl)
follow_none kind updated l h m = cc m
follow_none kind completed l h m = inl (rw h refl)

follow_open :
    (kind : Bytes) (phase : Phase) (l : List Stage)
    → IsOpen kind l
    → is_started phase ≡ false
    → Stands (is_completed phase) kind (l ++ ((phase, kind) ∷ []))
follow_open kind started l h m = cc m
follow_open kind updated l (n, h) m =
    (suc n, rw h (ap (λ k. (started, kind) ∷ k) (updates_snoc kind n)))
follow_open kind completed l (n, h) m = inr (n, rw h refl)

follow_some :
    (b : Bool) (before kind : Bytes) (phase : Phase) (l : List Stage)
    → Stands b before l
    → may_follow (some (record { kind = before; complete = b })) kind phase ≡ true
    → Stands (is_completed phase) kind (l ++ ((phase, kind) ∷ []))
unfolding may_follow
follow_some true before kind phase l h m = cc m
follow_some false before kind phase l h m =
    let eq : bytes_eq before kind ≡ true = ground arith in
    let later : is_started phase ≡ false = ground arith in
    let same : before ≡ kind = (bytes_eq_iff before kind).0 eq in
    follow_open kind phase l (subst (λ k. IsOpen k l) same h) later

follow :
    (o : Option ItemState) (kind : Bytes) (phase : Phase) (l : List Stage)
    → Matches o l
    → may_follow o kind phase ≡ true
    → Stands (is_completed phase) kind (l ++ ((phase, kind) ∷ []))
unfolding may_follow
follow none kind phase l h m = follow_none kind phase l h m
follow (some i) kind phase l h m = follow_some i.complete i.kind kind phase l h m

item_of-set_item :
    (id : Bytes) (i : ItemState) (is : Items) → item_of id (set_item id i is) ≡ some i
unfolding item_of set_item
item_of-set_item id i [] = let e : bytes_eq id id ≡ true = (bytes_eq_iff id id).1 refl in rw e refl
item_of-set_item id i ((j, k) ∷ is) = elim (Bool-cases (bytes_eq j id)) [
  | inl e ↦ rw e (rw e refl)
  | inr e ↦ rw e (rw e (item_of-set_item id i is))
]

item_of-set_other :
    (id other : Bytes) (i : ItemState) (is : Items)
    → bytes_eq id other ≡ false
    → item_of other (set_item id i is) ≡ item_of other is
unfolding item_of set_item
item_of-set_other id o i [] h = rw h refl
item_of-set_other id o i ((j, k) ∷ is) h = elim (Bool-cases (bytes_eq j id)) [
  | inl e ↦
      let same : j ≡ id = (bytes_eq_iff j id).0 e in
      let n : bytes_eq j o ≡ false = rw same h in rw e (rw n refl)
  | inr e ↦ rw e (rw (item_of-set_other id o i is h) refl)
]

abbrev complete_or_not : Option ItemState → Bool
complete_or_not none = false
complete_or_not (some i) = i.complete

pub finished :
    (id : Bytes) (is : Items) (i : ItemState)
    → has_unfinished is ≡ false
    → item_of id is ≡ some i
    → i.complete ≡ true
unfolding item_of
finished id [] i h e = cc e
finished id ((j, k) ∷ is) i h e = elim (Bool-cases (bytes_eq j id)) [
  | inl q ↦
      let c : k.complete ≡ i.complete = ap complete_or_not (rw q at e) in
      let d : k.complete ≡ true = ground arith in sym c ∙ d
  | inr q ↦ let rest : has_unfinished is ≡ false = ground arith in finished id is i rest (rw q at e)
]

-- The stages of each item of the turn fit its record when the event of an item is recorded.
pub recorded-Matches :
    (phase : Phase) (id kind : Bytes) (is : Items) (es : List Event)
    → ((j : Bytes) → Matches (item_of j is) (stages j es))
    → may_follow (item_of id is) kind phase ≡ true
    → (j : Bytes)
    → Matches (item_of j (set_item id (record { kind = kind; complete = is_completed phase }) is)) (
        stages j
          (es ++ (record { event_type = item_phase phase; item_id = id; item_type = kind } ∷ [])))
recorded-Matches phase id kind is es h m j =
    rw
      (stages_append j es
        (record { event_type = item_phase phase; item_id = id; item_type = kind } ∷ []))
      (elim (Bool-cases (bytes_eq id j)) [
        | inl e ↦
            let s : id ≡ j = (bytes_eq_iff id j).0 e in
            let set : ItemState = record { kind = kind; complete = is_completed phase } in
            let now : item_of j (set_item id set is) ≡ some set =
              subst (λ q. item_of q (set_item id set is) ≡ some set) s
                (item_of-set_item id set is) in
            let l : Stands (is_completed phase) kind (stages j es ++ ((phase, kind) ∷ [])) =
              subst (λ q. Stands (is_completed phase) kind (stages q es ++ ((phase, kind) ∷ []))) s
                (follow (item_of id is) kind phase (stages id es) (h id) m) in
            rw e (rw now l)
        | inr e ↦
            let set : ItemState = record { kind = kind; complete = is_completed phase } in
            rw e (rw (item_of-set_other id j set is e) (rw (append-nil (stages j es)) (h j)))
      ])
