-- ===== src/RequestQueue.antt =====
-- `QueueEntry` and `RequestQueue` of model/madaodv-rqueue.h and model/madaodv-rqueue.cc. A method
-- returns the new queue, the entries that it dropped, for each of which the entry's error callback
-- was called in this order, and its result.
pub mod Bound
pub mod Once
pub mod Order
use madaodv_ns.Base.{
  ℕ, Bool, true, false, Option, none, some, List, [], ◌∷◌, ◌++◌, ◌==◌, if◌then◌else◌, ◌&&◌, any,
  reject, select, length,
}
use madaodv_ns.Int.{ℤ, pos, ◌+ℤ◌, ◌-ℤ◌, ltb_ℤ}
use madaodv_ns.Ipv4.{Packet, Ipv4Header}

pub record QueueEntry : Type 0 where
  pub packet : Packet
  pub header : Ipv4Header
  pub ucb : ℕ
  pub ecb : ℕ
  pub expire : ℤ

pub record RequestQueue : Type 0 where
  pub queue : List QueueEntry
  pub max_len : ℕ
  pub queue_timeout : ℤ

-- `QueueEntry newEntry(p, header, ucb, ecb)`, whose last argument is `Simulator::Now()`.
unfoldable pub make_queue_entry : ℤ → Packet → Ipv4Header → ℕ → ℕ → QueueEntry
make_queue_entry now packet header ucb ecb = record {
  packet = packet;
  header = header;
  ucb = ucb;
  ecb = ecb;
  expire = now +ℤ now;
}

abbrev pub get_expire_time : ℤ → QueueEntry → ℤ
get_expire_time now e = e.expire -ℤ now

abbrev pub set_expire_time : ℤ → ℤ → QueueEntry → QueueEntry
set_expire_time now exp e = record e { expire = exp +ℤ now }

unfoldable pub is_expired : ℤ → QueueEntry → Bool
is_expired now e = ltb_ℤ (get_expire_time now e) (pos 0)

unfoldable pub has_dst : ℕ → QueueEntry → Bool
has_dst dst e = let h = e.header in h.destination == dst

unfoldable pub same_packet : QueueEntry → QueueEntry → Bool
same_packet entry i =
    let p = i.packet in
    let q = entry.packet in
    let h = i.header in let k = entry.header in (p.uid == q.uid) && (h.destination == k.destination)

unfoldable pub purge : ℤ → RequestQueue → RequestQueue × List QueueEntry
purge now q =
    (record q { queue = reject (is_expired now) q.queue }, select (is_expired now) q.queue)

unfoldable pub get_size : ℤ → RequestQueue → RequestQueue × List QueueEntry × ℕ
get_size now q = let (q', dropped) = purge now q in (q', dropped, length q'.queue)

-- The end of `Enqueue`: into a full queue an entry comes in place of the oldest. `none` is the
-- undefined behaviour of `front()` and `erase(begin())` on an empty vector.
unfoldable pub place : ℕ → QueueEntry → List QueueEntry → Option (List QueueEntry × List QueueEntry)
place max_len entry [] = if 0 == max_len then none else some (entry ∷ [], [])
place max_len entry (oldest ∷ es) =
    if length (oldest ∷ es) == max_len
    then some (es ++ entry ∷ [], oldest ∷ [])
    else some ((oldest ∷ es) ++ entry ∷ [], [])

unfoldable pub enqueue :
    ℤ → QueueEntry → RequestQueue → Option (RequestQueue × List QueueEntry × Bool)
enqueue now entry q =
    let (q', dropped) = purge now q in
    if any (same_packet entry) q'.queue
    then some (q', dropped, false)
    else elim (place q'.max_len (set_expire_time now q'.queue_timeout entry) q'.queue) [
      | none ↦ none
      | some (es, oldest) ↦ some (record q' { queue = es }, dropped ++ oldest, true)
    ]

unfoldable pub drop_packet_with_dst : ℤ → ℕ → RequestQueue → RequestQueue × List QueueEntry
drop_packet_with_dst now dst q =
    let (q', dropped) = purge now q in
    (record q' { queue = reject (has_dst dst) q'.queue }, dropped ++ select (has_dst dst) q'.queue)

-- The loop of `Dequeue`: the first entry for `dst`, and the list without it.
unfoldable pub take_dst : ℕ → List QueueEntry → Option (QueueEntry × List QueueEntry)
take_dst dst [] = none
take_dst dst (e ∷ es) =
    if has_dst dst e
    then some (e, es)
    else elim (take_dst dst es) [ none ↦ none | some (f, rest) ↦ some (f, e ∷ rest) ]

unfoldable pub dequeue : ℤ → ℕ → RequestQueue → RequestQueue × List QueueEntry × Option QueueEntry
dequeue now dst q =
    let (q', dropped) = purge now q in
    elim (take_dst dst q'.queue) [
      | none ↦ (q', dropped, none)
      | some (e, rest) ↦ (record q' { queue = rest }, dropped, some e)
    ]

unfoldable pub find : ℕ → RequestQueue → Bool
find dst q = any (has_dst dst) q.queue

unfoldable pub set_max_queue_len : ℕ → RequestQueue → RequestQueue
set_max_queue_len len q = record q { max_len = len }

unfoldable pub set_queue_timeout : ℤ → RequestQueue → RequestQueue
set_queue_timeout t q = record q { queue_timeout = t }
