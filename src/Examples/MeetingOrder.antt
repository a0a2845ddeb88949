-- ===== src/Examples/MeetingOrder.antt =====
-- An order that the database may pick for a listing of meetings: by insertion.
use mathlib.Core.List.{Permᴰ}
use mathlib.Core.List.Permᴰ
use voter_api.Prelude.{
  refl, ◌≤◌, List, [], ◌∷◌, arith, All-imp, All-Permᴰ, leb, leb_iff, if◌then◌else◌, Bool-cases, inl,
  inr,
}
use voter_api.Meetings.Db.{Meeting}
use voter_api.Meetings.Service.Visibility.{IsDescending, IsOrderBy}

abbrev pub insert : Meeting → List Meeting → List Meeting
insert m [] = m ∷ []
insert m (a ∷ rows) =
    let rest = insert m rows in if leb a.meeting_date m.meeting_date then m ∷ a ∷ rows else a ∷ rest

abbrev pub latest_first : List Meeting → List Meeting
latest_first [] = []
latest_first (m ∷ rows) = insert m (latest_first rows)

insert-Permᴰ : (m : Meeting) (rows : List Meeting) → Permᴰ (insert m rows) (m ∷ rows)
insert-Permᴰ m [] = Permᴰ.refl (m ∷ [])
insert-Permᴰ m (a ∷ rows) = elim (Bool-cases (leb a.meeting_date m.meeting_date)) [
  | inl e ↦ rw e (Permᴰ.refl (m ∷ a ∷ rows))
  | inr e ↦ rw e (Permᴰ.trans (Permᴰ.cons refl (insert-Permᴰ m rows)) (Permᴰ.swap refl refl))
]

insert-IsDescending :
    (m : Meeting) (rows : List Meeting) → IsDescending rows → IsDescending (insert m rows)
insert-IsDescending m [] h = (tt, tt)
insert-IsDescending m (a ∷ rows) h = elim (Bool-cases (leb a.meeting_date m.meeting_date)) [
  | inl e ↦
      let before : a.meeting_date ≤ m.meeting_date = (leb_iff a.meeting_date m.meeting_date).0 e in
      rw e (
        (
          before,
          All-imp (λ b. b.meeting_date ≤ a.meeting_date) (λ b. b.meeting_date ≤ m.meeting_date)
              (λ b k. omega (arith, k, before)) rows h.0,
        ),
        h,
      )
  | inr e ↦
      let after : m.meeting_date ≤ a.meeting_date = ground arith in
      rw e (
        All-Permᴰ (λ b. b.meeting_date ≤ a.meeting_date) (insert-Permᴰ m rows) (after, h.0),
        insert-IsDescending m rows h.1,
      )
]

latest_first-Permᴰ : (rows : List Meeting) → Permᴰ (latest_first rows) rows
latest_first-Permᴰ [] = Permᴰ.nil
latest_first-Permᴰ (m ∷ rows) =
    Permᴰ.trans (insert-Permᴰ m (latest_first rows)) (Permᴰ.cons refl (latest_first-Permᴰ rows))

latest_first-IsDescending : (rows : List Meeting) → IsDescending (latest_first rows)
latest_first-IsDescending [] = tt
latest_first-IsDescending (m ∷ rows) =
    insert-IsDescending m (latest_first rows) (latest_first-IsDescending rows)

pub latest_first-IsOrderBy : IsOrderBy latest_first
latest_first-IsOrderBy rows = (latest_first-Permᴰ rows, latest_first-IsDescending rows)
