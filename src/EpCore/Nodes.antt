-- ===== src/EpCore/Nodes.antt =====
-- libckits/epCore.c: the addresses of the nodes that wait in the timer list.
use mcuproxy.Prelude.{
  ℕ, suc, ◌+◌, ◌≡◌, refl, ap, List, [], ◌∷◌, some, All, arith, length, ◌==◌, if◌then◌else◌,
  Bool-cases, inl, inr,
}
use mcuproxy.SlotAlloc.Grid.{times}
use mcuproxy.TimeList.Time.{Timeval, time_interval, time_overthan}
use mcuproxy.TimeList.{
  AlarmEventNode, sync_events, add_event, hand_over, unlink_event, query_alarm_event_node,
}
use mcuproxy.EpCore.{ep_time_out_handler}

unfoldable pub addresses : List AlarmEventNode → List ℕ
addresses [] = []
addresses (e ∷ es) = e.address ∷ addresses es

-- Every event is one that `epCallLater` added.
abbrev pub AreOurs : List AlarmEventNode → Type 0
AreOurs es = All (λ (e : AlarmEventNode). e.cb_timeout ≡ ep_time_out_handler) es

-- The list `ys` is `xs` with `x` put in somewhere.
pub record IsWith (x : ℕ) (xs ys : List ℕ) : Type 0 where
  pub all : (a : ℕ) → times a ys ≡ (if x == a then 1 else 0) + times a xs
  pub one_more : length ys ≡ suc (length xs)

IsWith-cons : {x : ℕ} {xs ys : List ℕ} (y : ℕ) → IsWith x xs ys → IsWith x (y ∷ xs) (y ∷ ys)
unfolding times
IsWith-cons y w = record { all = λ a. omega (arith, w.all a); one_more = ap suc w.one_more }

pub IsWith-front : (x : ℕ) (xs : List ℕ) → IsWith x xs (x ∷ xs)
unfolding times
IsWith-front x xs = record { all = λ a. refl; one_more = refl }

pub sync_events-addresses :
    (since : Timeval) (es : List AlarmEventNode) → addresses (sync_events since es) ≡ addresses es
unfolding sync_events addresses
sync_events-addresses since [] = refl
sync_events-addresses since (cur ∷ rest) = elim (Bool-cases (time_overthan since cur.tv_remain)) [
  | inl past ↦
      rw past
        (ap (λ r. cur.address ∷ r) (sync_events-addresses (time_interval since cur.tv_remain) rest))
  | inr ahead ↦ rw ahead refl
]

pub sync_events-AreOurs :
    (since : Timeval) (es : List AlarmEventNode) → AreOurs es → AreOurs (sync_events since es)
unfolding sync_events
sync_events-AreOurs since [] h = tt
sync_events-AreOurs since (cur ∷ rest) h = elim (Bool-cases (time_overthan since cur.tv_remain)) [
  | inl past ↦ rw past (h.0, sync_events-AreOurs (time_interval since cur.tv_remain) rest h.1)
  | inr ahead ↦ rw ahead h
]

pub add_event-addresses :
    (e : AlarmEventNode) (es : List AlarmEventNode)
    → IsWith e.address (addresses es) (addresses (add_event e es))
unfolding add_event addresses
add_event-addresses e [] = IsWith-front e.address []
add_event-addresses e (cur ∷ rest) = elim (Bool-cases (time_overthan e.tv_remain cur.tv_remain)) [
  | inl past ↦ rw past (
      IsWith-cons cur.address (
        add_event-addresses (record e { tv_remain = time_interval e.tv_remain cur.tv_remain })
          rest))
  | inr here ↦ rw here (IsWith-front e.address (cur.address ∷ addresses rest))
]

pub add_event-AreOurs :
    (e : AlarmEventNode) (es : List AlarmEventNode)
    → e.cb_timeout ≡ ep_time_out_handler
    → AreOurs es
    → AreOurs (add_event e es)
unfolding add_event
add_event-AreOurs e [] ours h = (ours, tt)
add_event-AreOurs e (cur ∷ rest) ours h =
    elim (Bool-cases (time_overthan e.tv_remain cur.tv_remain)) [
      | inl past ↦ rw past (
        h.0,
        add_event-AreOurs (record e { tv_remain = time_interval e.tv_remain cur.tv_remain }) rest
            ours h.1,
      )
      | inr here ↦ rw here (ours, (h.0, h.1))
    ]

hand_over-addresses :
    (cur : AlarmEventNode) (head : Timeval) (rest : List AlarmEventNode)
    → addresses (hand_over cur head rest).0 ≡ addresses rest
unfolding hand_over addresses
hand_over-addresses cur head [] = refl
hand_over-addresses cur head (next ∷ more) = refl

hand_over-AreOurs :
    (cur : AlarmEventNode) (head : Timeval) (rest : List AlarmEventNode)
    → AreOurs rest
    → AreOurs (hand_over cur head rest).0
unfolding hand_over
hand_over-AreOurs cur head [] h = tt
hand_over-AreOurs cur head (next ∷ more) h = h

pub unlink_event-addresses :
    (token : ℕ) (head : Timeval) (es : List AlarmEventNode) (e : AlarmEventNode)
    → query_alarm_event_node token es ≡ some e
    → IsWith e.address (addresses (unlink_event token head es).0) (addresses es)
unfolding unlink_event query_alarm_event_node addresses
unlink_event-addresses token head [] e h = absurd (cc)
unlink_event-addresses token head (cur ∷ rest) e h = elim (Bool-cases (token == cur.id_token)) [
  | inl here ↦
      let same : cur ≡ e = ground (arith, h, here) in
      rw here
        (rw (hand_over-addresses cur head rest, same) (IsWith-front e.address (addresses rest)))
  | inr there ↦ rw there (
      IsWith-cons cur.address (unlink_event-addresses token head rest e (ground (arith, h, there))))
]

pub unlink_event-AreOurs :
    (token : ℕ) (head : Timeval) (es : List AlarmEventNode)
    → AreOurs es
    → AreOurs (unlink_event token head es).0
unfolding unlink_event
unlink_event-AreOurs token head [] h = tt
unlink_event-AreOurs token head (cur ∷ rest) h = elim (Bool-cases (token == cur.id_token)) [
  | inl here ↦ rw here (hand_over-AreOurs cur head rest h.1)
  | inr there ↦ rw there (h.0, unlink_event-AreOurs token head rest h.1)
]
