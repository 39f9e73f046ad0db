-- ===== src/TimeList/Unlink.antt =====
-- libckits/timeList.c: what an event leaves behind when it is unlinked.
use mcuproxy.Prelude.{
  ℕ, ◌*◌, ◌^◌, ◌<◌, sym, ◌+◌, ◌≤◌, ◌≡◌, refl, ap, ap₂, ◌∙◌, List, [], ◌∷◌, none, some, arith, inl,
  inr, Bool-cases, ◌==◌,
}
use mcuproxy.TimeList.Time.{Timeval, million, wrapped, wrapped_fits, add_remain, add_remain-micros}
use mcuproxy.TimeList.{AlarmEventNode, hand_over, unlink_event, query_alarm_event_node}
use mcuproxy.TimeList.Schedule.{
  micros, IsNormal, AreNormal, Agenda, schedule, remove_due, of_micros-IsNormal,
}

-- The time from the first event to the last.
unfoldable pub span : List AlarmEventNode → ℕ
span [] = 0
span (e ∷ es) = micros e.tv_remain + span es

-- A queue and its head that stand for the agenda `a` over a time of `total`, of which the head has
-- what its 32 bits hold.
pub record Handed (base : ℕ) (a : Agenda) (total low : ℕ) (r : List AlarmEventNode × Timeval)
    : Type 0 where
  pub normal : AreNormal r.0
  pub agenda : schedule base r.0 ≡ a
  pub gap : ℕ
  pub conserved : span r.0 + gap ≡ total
  pub head : r.1 ≡ wrapped gap
  pub grown : low ≤ gap

module _ {next entry : Timeval} (n : IsNormal next) (e : IsNormal entry) where
  pub add_remain-wrapped : add_remain next entry ≡ wrapped (micros next + micros entry)
  add_remain-wrapped = ap₂ add_remain n e ∙ add_remain-micros (micros next) (micros entry)

  add_remain-IsNormal :
      micros next + micros entry < 2 ^ 31 * million
      → IsNormal (add_remain next entry)
        × (micros (add_remain next entry) ≡ micros next + micros entry)
  add_remain-IsNormal h =
      of_micros-IsNormal (micros next + micros entry) (add_remain-wrapped ∙ wrapped_fits _ h)

-- A time that 32 bits hold.
pub normal-wrapped :
    {tv : Timeval} → IsNormal tv → micros tv < 2 ^ 31 * million → tv ≡ wrapped (micros tv)
normal-wrapped {tv} n h = n ∙ sym (wrapped_fits (micros tv) h)

hand_over-Handed :
    (cur : AlarmEventNode) (head : Timeval) (rest : List AlarmEventNode) (base : ℕ)
    → IsNormal cur.tv_remain
    → IsNormal head
    → AreNormal rest
    → micros cur.tv_remain + span rest < 2 ^ 31 * million
    → micros head < 2 ^ 31 * million
    → Handed base
        (schedule (base + micros cur.tv_remain) rest)
        (micros cur.tv_remain + span rest + micros head)
        (micros head)
        (hand_over cur head rest)
unfolding hand_over schedule span
hand_over-Handed cur head [] base c n h room small = record {
  normal = tt;
  agenda = refl;
  gap = micros head + micros cur.tv_remain;
  conserved = omega arith;
  head = add_remain-wrapped n c;
  grown = omega arith;
}
hand_over-Handed cur head (next ∷ more) base c n h room small =
    let (normal, sum) = add_remain-IsNormal h.0 c (omega (arith, room)) in
    let due : base + (micros next.tv_remain + micros cur.tv_remain)
        ≡ base + micros cur.tv_remain + micros next.tv_remain =
      omega arith in
    record {
      normal = (normal, h.1);
      agenda = rw (sum, due);
      gap = micros head;
      conserved = omega arith;
      head = normal-wrapped n small;
      grown = omega arith;
    }

-- The others are due when they were; what remained of the last event goes to the head.
pub unlink_event-Handed :
    (es : List AlarmEventNode) (token base : ℕ) (head : Timeval)
    → AreNormal es
    → IsNormal head
    → span es < 2 ^ 31 * million
    → micros head < 2 ^ 31 * million
    → Handed base
        (remove_due token (schedule base es))
        (span es + micros head)
        (micros head)
        (unlink_event token head es)
unfolding unlink_event schedule remove_due span
unlink_event-Handed [] token base head h n room small = record {
  normal = tt;
  agenda = refl;
  gap = micros head;
  conserved = refl;
  head = normal-wrapped n small;
  grown = omega arith;
}
unlink_event-Handed (cur ∷ rest) token base head h n room small =
    let due = base + micros cur.tv_remain in
    let later = unlink_event-Handed rest token due head h.1 n (omega (arith, room)) small in
    elim (Bool-cases (token == cur.id_token)) [
      | inl found ↦ rw (found) (hand_over-Handed cur head rest base h.0 n h.1 room small)
      | inr other ↦ rw other (record {
        normal = (h.0, later.normal);
        agenda = ap (λ a. (cur.id_token, due) ∷ a) later.agenda;
        gap = later.gap;
        conserved = omega (arith, later.conserved);
        head = later.head;
        grown = later.grown;
      })
    ]

-- A token is found exactly when it is on the agenda.
pub query-eq-none :
    (es : List AlarmEventNode) (token base : ℕ)
    → query_alarm_event_node token es ≡ none
    → remove_due token (schedule base es) ≡ schedule base es
unfolding query_alarm_event_node schedule remove_due
query-eq-none [] token base h = refl
query-eq-none (cur ∷ rest) token base h =
    ground (arith, query-eq-none rest token (base + micros cur.tv_remain))

pub query-eq-some :
    (es : List AlarmEventNode) (token : ℕ) {e : AlarmEventNode}
    → query_alarm_event_node token es ≡ some e
    → e.id_token ≡ token
unfolding query_alarm_event_node
query-eq-some [] token h = cc
query-eq-some (cur ∷ rest) token {e} h = ground (arith, query-eq-some rest token {e = e})
