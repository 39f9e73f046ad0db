-- ===== src/TimedEventQ/Sorted.antt =====
-- libnet/absTimerList.cpp: the order of the queue.
use mcuproxy.Prelude.{
  ℕ, ◌+◌, ◌≡◌, refl, ap, Bool, true, false, List, [], ◌∷◌, ◌++◌, All, arith, ◌==◌, if◌then◌else◌,
  Bool-cases, inl, inr,
}
use mcuproxy.TimeList.Time.{Timeval, time_overthan}
use mcuproxy.TimedEventQ.{EventUnit, insert_unit, erase_unit, split_due}

-- `b` is not before `a`.
abbrev pub Follows : Timeval → Timeval → Type 0
Follows a b = time_overthan b a ≡ true

pub Follows-total : (a b : Timeval) → time_overthan a b ≡ false → Follows a b
unfolding time_overthan
Follows-total a b h = ground (arith, h)

pub Follows-trans : (a b c : Timeval) → Follows a b → Follows b c → Follows a c
unfolding time_overthan
Follows-trans a b c h k = ground (arith, h, k)

abbrev pub AllFrom : Timeval → List EventUnit → Type 0
AllFrom tv units = All (λ (v : EventUnit). Follows tv v.tv_absolute) units

-- No unit is before one in front of it.
abbrev pub Sorted : List EventUnit → Type 0
Sorted [] = Unit
Sorted (u ∷ units) = AllFrom u.tv_absolute units × Sorted units

AllFrom-below :
    (a b : Timeval) (units : List EventUnit) → Follows a b → AllFrom b units → AllFrom a units
AllFrom-below a b [] h all = tt
AllFrom-below a b (v ∷ units) h (first, all) =
    (Follows-trans a b v.tv_absolute h first, AllFrom-below a b units h all)

insert_unit-AllFrom :
    (tv : Timeval) (unit : EventUnit) (units : List EventUnit)
    → Follows tv unit.tv_absolute
    → AllFrom tv units
    → AllFrom tv (insert_unit unit units)
unfolding insert_unit
insert_unit-AllFrom tv unit [] h all = (h, tt)
insert_unit-AllFrom tv unit (cur ∷ rest) h (first, all) =
    elim (Bool-cases (time_overthan unit.tv_absolute cur.tv_absolute)) [
      | inl behind ↦ rw behind (first, insert_unit-AllFrom tv unit rest h all)
      | inr front ↦ rw front (h, (first, all))
    ]

pub insert_unit-Sorted :
    (unit : EventUnit) (units : List EventUnit) → Sorted units → Sorted (insert_unit unit units)
unfolding insert_unit
insert_unit-Sorted unit [] s = (tt, tt)
insert_unit-Sorted unit (cur ∷ rest) (all, s) =
    elim (Bool-cases (time_overthan unit.tv_absolute cur.tv_absolute)) [
      | inl behind ↦
          rw behind (
            insert_unit-AllFrom cur.tv_absolute unit rest behind all,
            insert_unit-Sorted unit rest s,
          )
      | inr front ↦
          let first = Follows-total unit.tv_absolute cur.tv_absolute front in
          rw front
            ((first, AllFrom-below unit.tv_absolute cur.tv_absolute rest first all), (all, s))
    ]

-- How many units have a property: two lists with the same numbers for all properties hold the same
-- units, as often.
unfoldable pub bag : (EventUnit → Bool) → List EventUnit → ℕ
bag p [] = 0
bag p (u ∷ units) = (if p u then 1 else 0) + bag p units

pub insert_unit-bag :
    (p : EventUnit → Bool) (unit : EventUnit) (units : List EventUnit)
    → bag p (insert_unit unit units) ≡ (if p unit then 1 else 0) + bag p units
unfolding insert_unit bag
insert_unit-bag p unit [] = refl
insert_unit-bag p unit (cur ∷ rest) =
    elim (Bool-cases (time_overthan unit.tv_absolute cur.tv_absolute)) [
      | inl behind ↦ rw behind (omega (arith, insert_unit-bag p unit rest))
      | inr front ↦ rw front refl
    ]

-- The units up to a time, and those after it.
abbrev pub IsSplit : Timeval → List EventUnit → List EventUnit × List EventUnit → Type 0
IsSplit now units (due, later) =
    (due ++ later ≡ units)
    × All (λ (u : EventUnit). time_overthan now u.tv_absolute ≡ true) due
    × All (λ (u : EventUnit). time_overthan now u.tv_absolute ≡ false) later

not_due :
    (now a b : Timeval) → Follows a b → time_overthan now a ≡ false → time_overthan now b ≡ false
unfolding time_overthan
not_due now a b h k = ground (arith, h, k)

none_due :
    (now tv : Timeval) (units : List EventUnit)
    → time_overthan now tv ≡ false
    → AllFrom tv units
    → All (λ (u : EventUnit). time_overthan now u.tv_absolute ≡ false) units
none_due now tv [] h all = tt
none_due now tv (u ∷ units) h (first, all) =
    (not_due now tv u.tv_absolute first h, none_due now tv units h all)

pub split_due-IsSplit :
    (now : Timeval) (units : List EventUnit)
    → Sorted units
    → IsSplit now units (split_due now units)
unfolding split_due
split_due-IsSplit now [] s = (refl, tt, tt)
split_due-IsSplit now (cur ∷ rest) (all, s) =
    elim (Bool-cases (time_overthan now cur.tv_absolute)) [
      | inl ready ↦
          let (whole, due, later) = split_due-IsSplit now rest s in
          rw ready (ap (λ us. cur ∷ us) whole, (ready, due), later)
      | inr early ↦ rw early (refl, tt, (early, none_due now cur.tv_absolute rest early all))
    ]

append-AllFrom :
    (tv : Timeval) (front back : List EventUnit)
    → AllFrom tv (front ++ back)
    → AllFrom tv front × AllFrom tv back
append-AllFrom tv [] back all = (tt, all)
append-AllFrom tv (u ∷ front) back (first, all) =
    let (one, two) = append-AllFrom tv front back all in ((first, one), two)

pub append-Sorted :
    (front back : List EventUnit) → Sorted (front ++ back) → Sorted front × Sorted back
append-Sorted [] back s = (tt, s)
append-Sorted (u ∷ front) back (all, s) =
    let (one, two) = append-Sorted front back s in
    (((append-AllFrom u.tv_absolute front back all).0, one), two)

erase_unit-AllFrom :
    (tv : Timeval) (token : ℕ) (units : List EventUnit)
    → AllFrom tv units
    → AllFrom tv (erase_unit token units)
unfolding erase_unit
erase_unit-AllFrom tv token [] all = tt
erase_unit-AllFrom tv token (cur ∷ rest) (first, all) = elim (Bool-cases (cur.id_token == token)) [
  | inl here ↦ rw here all
  | inr there ↦ rw there (first, erase_unit-AllFrom tv token rest all)
]

pub erase_unit-Sorted :
    (token : ℕ) (units : List EventUnit) → Sorted units → Sorted (erase_unit token units)
unfolding erase_unit
erase_unit-Sorted token [] s = tt
erase_unit-Sorted token (cur ∷ rest) (all, s) = elim (Bool-cases (cur.id_token == token)) [
  | inl here ↦ rw here s
  | inr there ↦
      rw there (erase_unit-AllFrom cur.tv_absolute token rest all, erase_unit-Sorted token rest s)
]
