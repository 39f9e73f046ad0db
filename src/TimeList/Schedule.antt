-- ===== src/TimeList/Schedule.antt =====
-- libckits/timeList.c: the due times that a queue of remaining times stands for, and how the loops
-- over the queue change them.
use native.Mathlib.Nat.{sub-zero, zero-sub}
use mcuproxy.Prelude.{
  ℕ, ◌+◌, ◌-◌, ◌*◌, ◌≤◌, ◌≡◌, refl, sym, ap, ◌∙◌, true, false, List, [], ◌∷◌, arith, inl, inr,
  Bool-cases, leb, ◌==◌, if◌then◌else◌, All,
}
use mcuproxy.Prelude.Int.{pos_part}
use mcuproxy.TimeList.Time.{
  Timeval, million, delay_zero, time_interval, time_overthan, of_micros, time_interval-micros,
  time_overthan-micros,
}
use mcuproxy.TimeList.{AlarmEventNode, sync_events, add_event}

-- The microseconds in a time whose fields are in range.
unfoldable pub micros : Timeval → ℕ
micros tv = pos_part tv.tv_sec * million + pos_part tv.tv_usec

abbrev pub IsNormal : Timeval → Type 0
IsNormal tv = tv ≡ of_micros (micros tv)

abbrev pub AreNormal : List AlarmEventNode → Type 0
AreNormal es = All (λ (e : AlarmEventNode). IsNormal e.tv_remain) es

-- An agenda: tokens with the times at which they are due, counted from some origin.
abbrev pub Agenda : Type 0
Agenda = List (ℕ × ℕ)

-- The agenda of a queue whose first event follows the time `base`.
unfoldable pub schedule : ℕ → List AlarmEventNode → Agenda
schedule base [] = []
schedule base (e ∷ es) = let due = base + micros e.tv_remain in (e.id_token, due) ∷ schedule due es

-- Every due time `s` earlier, but not before the origin.
unfoldable pub sooner : ℕ → Agenda → Agenda
sooner s [] = []
sooner s ((token, due) ∷ a) = (token, due - s) ∷ sooner s a

-- Behind all that is due no later.
unfoldable pub insert_due : ℕ → ℕ → Agenda → Agenda
insert_due token due [] = (token, due) ∷ []
insert_due token due ((t, d) ∷ a) =
    if leb d due then (t, d) ∷ insert_due token due a else (token, due) ∷ (t, d) ∷ a

-- Without the first entry of that token.
unfoldable pub remove_due : ℕ → Agenda → Agenda
remove_due token [] = []
remove_due token ((t, d) ∷ a) = if token == t then a else (t, d) ∷ remove_due token a

pub micros-of_micros : (n : ℕ) → micros (of_micros n) ≡ n
unfolding micros of_micros
micros-of_micros n = omega arith

pub of_micros-IsNormal : {tv : Timeval} (n : ℕ) → tv ≡ of_micros n → IsNormal tv × (micros tv ≡ n)
of_micros-IsNormal {tv} n e =
    let same = ap micros e ∙ micros-of_micros n in (e ∙ ap of_micros (sym same), same)

pub zero-IsNormal : IsNormal delay_zero × (micros delay_zero ≡ 0)
zero-IsNormal = of_micros-IsNormal 0 (unfold of_micros in refl)

pub schedule-sooner :
    (es : List AlarmEventNode) (base s : ℕ)
    → s ≤ base
    → schedule (base - s) es ≡ sooner s (schedule base es)
unfolding schedule sooner
schedule-sooner [] base s h = refl
schedule-sooner (e ∷ es) base s h = ground (arith, schedule-sooner es (base + micros e.tv_remain) s)

module _ {tv : Timeval} (normal : IsNormal tv) where
  pub overthan_normal : (x : ℕ) → time_overthan (of_micros x) tv ≡ leb (micros tv) x
  overthan_normal x = ap (time_overthan (of_micros x)) normal ∙ time_overthan-micros x (micros tv)

  pub interval_normal : (x : ℕ) → time_interval (of_micros x) tv ≡ of_micros (x - micros tv)
  interval_normal x = ap (time_interval (of_micros x)) normal ∙ time_interval-micros x (micros tv)

  pub interval_normal_left : (x : ℕ) → time_interval tv (of_micros x) ≡ of_micros (micros tv - x)
  interval_normal_left x =
      ap (λ t. time_interval t (of_micros x)) normal ∙ time_interval-micros (micros tv) x

abbrev pub Synced : ℕ → ℕ → List AlarmEventNode → Type 0
Synced base s es =
    let es' = sync_events (of_micros (s - base)) es in
    AreNormal es' × (schedule (base - s) es' ≡ sooner s (schedule base es))

-- Time `s` has come: what was due is due now, and the rest that much sooner.
pub sync_events-schedule :
    (es : List AlarmEventNode) (base s : ℕ) → AreNormal es → base ≤ s → Synced base s es
unfolding sync_events schedule sooner
sync_events-schedule [] base s h le = (tt, refl)
sync_events-schedule (e ∷ es) base s h le =
    elim (Bool-cases (leb (micros e.tv_remain) (s - base))) [
      | inl past ↦
          let (normal, ih) =
            sync_events-schedule es (base + micros e.tv_remain) s h.1 (ground arith) in
          let reached : s - base - micros e.tv_remain ≡ s - (base + micros e.tv_remain) =
            omega arith in
          rw (overthan_normal h.0 (s - base), past, interval_normal h.0 (s - base), reached)
            (let start : base - s + micros delay_zero ≡ base + micros e.tv_remain - s =
                ground (arith, zero-IsNormal.1) in
              (
                (zero-IsNormal.0, normal),
                rw start (ap (λ a. (e.id_token, base + micros e.tv_remain - s) ∷ a) ih),
              ))
      | inr ahead ↦
          rw (overthan_normal h.0 (s - base), ahead, interval_normal_left h.0 (s - base))
            (let left = micros e.tv_remain - (s - base) in
              (
                ((of_micros-IsNormal left refl).0, h.1),
                rw (micros-of_micros left) (
                    let start : base - s + left ≡ base + micros e.tv_remain - s = ground arith in
                    rw start (
                      ap (λ a. (e.id_token, base + micros e.tv_remain - s) ∷ a)
                        (schedule-sooner es (base + micros e.tv_remain) s (ground arith)))),
              ))
    ]

pub sync_events-sooner :
    (es : List AlarmEventNode) (s : ℕ)
    → AreNormal es
    → AreNormal (sync_events (of_micros s) es)
      × (schedule 0 (sync_events (of_micros s) es) ≡ sooner s (schedule 0 es))
sync_events-sooner es s h =
    let (normal, same) = sync_events-schedule es 0 s h (omega arith) in
    (rw sub-zero at normal, rw (sub-zero, zero-sub) at same)

abbrev pub Added : ℕ → ℕ → AlarmEventNode → List AlarmEventNode → Type 0
Added base m new_entry es =
    let es' = add_event new_entry es in
    AreNormal es'
    × (schedule base es' ≡ insert_due new_entry.id_token (base + m) (schedule base es))

-- The new event takes its place behind those that are due no later, and moves no other.
pub add_event-schedule :
    (es : List AlarmEventNode) (base m : ℕ) (new_entry : AlarmEventNode)
    → AreNormal es
    → new_entry.tv_remain ≡ of_micros m
    → Added base m new_entry es
unfolding add_event schedule insert_due
add_event-schedule [] base m new_entry h e =
    let (normal, same) = of_micros-IsNormal m e in ((normal, tt), rw same)
add_event-schedule (cur ∷ rest) base m new_entry h e =
    let d = micros cur.tv_remain in
    let (normal, same) = of_micros-IsNormal m e in
    let order = ap (λ t. time_overthan t cur.tv_remain) e ∙ overthan_normal h.0 m in
    elim (Bool-cases (leb d m)) [
      | inl after ↦
          let moved : AlarmEventNode = record new_entry {
            tv_remain = time_interval new_entry.tv_remain cur.tv_remain;
          } in
          let (normal', ih) =
            add_event-schedule rest (base + d) (m - d) moved h.1
              (ap (λ t. time_interval t cur.tv_remain) e ∙ interval_normal h.0 m) in
          let reached : leb (base + d) (base + m) ≡ true = ground arith in
          let due : base + d + (m - d) ≡ base + m = ground arith in
          rw (order, after, reached)
            ((h.0, normal'), ap (λ a. (cur.id_token, base + d) ∷ a) (rw due at ih))
      | inr before ↦
          let left = ap (time_interval cur.tv_remain) e ∙ interval_normal_left h.0 m in
          let (normal', same') = of_micros-IsNormal (d - m) left in
          let ahead : leb (base + d) (base + m) ≡ false = ground arith in
          let due : base + m + (d - m) ≡ base + d = ground arith in
          rw (order, before, ahead) ((normal, (normal', h.1)), rw (same, same', due))
    ]
