-- ===== src/Queues/Invariant.antt =====
-- Every queue stays within its capacity, under every sequence of calls.
use ai_coding_training.Base.{
  ℕ, zero, suc, ◌+◌, ◌≤◌, ◌≡◌, true, Option, none, some, List, [], ◌∷◌, ◌++◌, arith, length,
  length-append, Option-cases, inl, inr,
}
use ai_coding_training.Base.Int.{ℤ, pos, negsuc}
use ai_coding_training.Text.{Text}
use ai_coding_training.Text.Names.{name_matches}
use ai_coding_training.Members.{Distinct}
use ai_coding_training.Dict.{lookup, keys, insert-Distinct, erase-Distinct}
use ai_coding_training.Dict.Each.{Each, Each-nil, Each-insert, Each-erase}
use ai_coding_training.Queues.{
  Queue, QueueManager, capacity, put, create_queue, delete_queue, enqueue, dequeue, pop_left, init,
}
use ai_coding_training.Queues.Steps.{Call, create, delete, send, take, call, run_queues}

pub record IsQueue (name : Text) (q : Queue) : Type 0 where
  pub within : length q.items ≤ q.max_size
  pub has_room : 1 ≤ q.max_size
  pub named : name_matches name ≡ true

-- Each queue has a name that the pattern accepts, a capacity of one at least, and no more messages
-- than that; no name is there twice.
pub record IsValid (m : QueueManager) : Type 0 where
  pub default_pos : 1 ≤ m.default_max_size
  pub distinct : Distinct (keys m.queues)
  pub each : Each IsQueue m.queues

capacity_pos : (d : ℕ) (z : Option ℤ) → 1 ≤ d → 1 ≤ capacity d z
unfolding capacity
capacity_pos d none h = h
capacity_pos d (some (pos zero)) h = h
capacity_pos d (some (pos (suc n))) h = omega arith
capacity_pos d (some (negsuc n)) h = h

put-IsValid :
    (name : Text) (q : Queue) (m : QueueManager)
    → IsValid m
    → IsQueue name q
    → IsValid (put name q m)
unfolding put
put-IsValid name q m v w = record {
  default_pos = v.default_pos;
  distinct = insert-Distinct name q m.queues v.distinct;
  each = Each-insert IsQueue name q m.queues v.each w;
}

pub create_queue-IsValid :
    (name : Text) (z : Option ℤ) (m : QueueManager) → IsValid m → IsValid (create_queue name z m).1
unfolding create_queue
create_queue-IsValid name z m v = ground (
  arith,
  λ (ok_name : name_matches name ≡ true).
      put-IsValid name (record { items = []; max_size = capacity m.default_max_size z }) m v
        (record {
          within = omega arith;
          has_room = capacity_pos m.default_max_size z v.default_pos;
          named = ok_name;
        }),
)

pub delete_queue-IsValid :
    (name : Text) (m : QueueManager) → IsValid m → IsValid (delete_queue name m).1
unfolding delete_queue
delete_queue-IsValid name m v =
    ground (arith, Each-erase IsQueue name m.queues v.each, erase-Distinct name m.queues v.distinct)

pub enqueue-IsValid :
    (name id body : Text) (m : QueueManager) → IsValid m → IsValid (enqueue name id body m).1
unfolding enqueue
enqueue-IsValid name id body m v = elim (Option-cases (lookup name m.queues)) [
  | inl gone ↦ ground arith
  | inr (q, found) ↦
      let w = v.each.at name q found in
      let n : length (q.items ++ (id, body) ∷ []) ≡ length q.items + 1 =
        length-append q.items ((id, body) ∷ []) in
      ground (
        arith,
        λ (room : length q.items + 1 ≤ q.max_size).
            put-IsValid name (record q { items = q.items ++ (id, body) ∷ [] }) m v
              (record { within = omega (arith, n); has_room = w.has_room; named = w.named }),
      )
]

pop_left-IsValid :
    (name : Text) (items : List (Text × Text)) (size : ℕ) (m : QueueManager)
    → IsValid m
    → IsQueue name (record { items = items; max_size = size })
    → IsValid (pop_left name (record { items = items; max_size = size }) m).1
unfolding pop_left
pop_left-IsValid name [] size m v w = v
pop_left-IsValid name (x ∷ rest) size m v w =
    put-IsValid name (record { items = rest; max_size = size }) m v
      (record { within = omega (arith, w.within); has_room = w.has_room; named = w.named })

pub dequeue-IsValid : (name : Text) (m : QueueManager) → IsValid m → IsValid (dequeue name m).1
unfolding dequeue
dequeue-IsValid name m v = elim (Option-cases (lookup name m.queues)) [
  | inl gone ↦ ground arith
  | inr (q, found) ↦
      rw found (pop_left-IsValid name q.items q.max_size m v (v.each.at name q found))
]

-- Every call, whether it returns or raises, keeps the manager valid.
call-IsValid : (c : Call) (m : QueueManager) → IsValid m → IsValid (call c m).1
unfolding call
call-IsValid (create n z) m v = create_queue-IsValid n z m v
call-IsValid (delete n) m v = delete_queue-IsValid n m v
call-IsValid (send n id body) m v = enqueue-IsValid n id body m v
call-IsValid (take n) m v = dequeue-IsValid n m v

-- After any calls on a valid manager, whether they raise or not, each queue holds at most as many
-- messages as its capacity, which is one at least, the pattern accepts its name, and no name is
-- there twice.
pub run_queues-IsValid : (cs : List Call) (m : QueueManager) → IsValid m → IsValid (run_queues cs m)
unfolding run_queues
run_queues-IsValid [] m v = v
run_queues-IsValid (c ∷ cs) m v = run_queues-IsValid cs (call c m).1 (call-IsValid c m v)

pub init-IsValid : IsValid init
unfolding lookup
init-IsValid = record {
  default_pos = omega arith;
  distinct = unfold keys in tt;
  each = Each-nil IsQueue;
}
