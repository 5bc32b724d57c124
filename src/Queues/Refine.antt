-- ===== src/Queues/Refine.antt =====
-- The queue manager does what its specification says.
pub mod Single
pub mod Replies
use mathlib.Core.Path.{fun_ext}
use ai_coding_training.Base.{
  ℕ, zero, suc, ◌+◌, ◌≡◌, refl, sym, ap, ◌∙◌, Bool, true, false, Option, none, some, List, [], ◌∷◌,
  ◌++◌, arith, ltb, leb, if◌then◌else◌, length, Option-cases, Bool-cases, inl, inr,
}
use ai_coding_training.Base.Int.{ℤ, pos, negsuc}
use ai_coding_training.Base.Action.{Outcome, ok, raised}
use ai_coding_training.Text.{Text, codes, is_empty, text_eq}
use ai_coding_training.Dict.{lookup, contains, insert, erase, lookup-insert, lookup-erase}
use ai_coding_training.Queues.{
  Queue, QueueManager, QueueError, capacity, put, queue_exists, queue_not_found, queue_full,
  empty_message, message_too_large, invalid_queue_name, create_queue, delete_queue, enqueue,
  dequeue, pop_left, get_queue_depth, queue_exists?, validate_name, validate_message,
}
use ai_coding_training.Queues.Spec.{
  Request, create, delete, send, take, depth, exists, Reply, done, refused, taken, count, answer,
  Channel, channel, Board, post, depth_of, is_there, reply_to, replies, size_of,
}
use ai_coding_training.Text.Names.{name_matches}
use ai_coding_training.Text.Utf8.{encode}

abbrev pub of_unit : Outcome QueueError Unit → Reply
of_unit (ok u) = done
of_unit (raised e) = refused e

abbrev pub of_take : Outcome QueueError (Option (Text × Text)) → Reply
of_take (ok o) = taken o
of_take (raised e) = refused e

-- A request to the code.
unfoldable pub serve : Request → QueueManager → Reply × QueueManager
serve (create name size) m = let (o, m') = create_queue name size m in (of_unit o, m')
serve (delete name) m = let (o, m') = delete_queue name m in (of_unit o, m')
serve (send name id body) m = let (o, m') = enqueue name id body m in (of_unit o, m')
serve (take name) m = let (o, m') = dequeue name m in (of_take o, m')
serve (depth name) m = (count (get_queue_depth name m), m)
serve (exists name) m = (answer (queue_exists? name m), m)

unfoldable pub serve_all : List Request → QueueManager → List Reply
serve_all [] m = []
serve_all (r ∷ rs) m = let (a, m') = serve r m in a ∷ serve_all rs m'

abbrev pub to_channel : Option Queue → Option Channel
to_channel none = none
to_channel (some q) = some (channel q.max_size q.items)

-- The board that a manager stands for.
unfoldable pub view : QueueManager → Board
view m name = to_channel (lookup name m.queues)

-- Writing a queue changes the board at its name.
pub view-put :
    (name : Text) (q : Queue) (m : QueueManager)
    → view (put name q m) ≡ post name (some (channel q.max_size q.items)) (view m)
unfolding view put post
view-put name q m =
    fun_ext (λ n. ap to_channel (lookup-insert name n q m.queues) ∙ by_cases n (text_eq name n))
  where
    by_cases :
        (n : Text) (b : Bool)
        → to_channel (if b then some q else lookup n m.queues)
          ≡ (if b then some (channel q.max_size q.items) else to_channel (lookup n m.queues))
    by_cases n true = refl
    by_cases n false = refl

pub view-erase :
    (name : Text) (m : QueueManager)
    → view (record m { queues = erase name m.queues }) ≡ post name none (view m)
unfolding view post
view-erase name m =
    fun_ext (λ n. ap to_channel (lookup-erase name n m.queues) ∙ by_cases n (text_eq name n))
  where
    by_cases :
        (n : Text) (b : Bool)
        → to_channel (if b then none else lookup n m.queues)
          ≡ (if b then none else to_channel (lookup n m.queues))
    by_cases n true = refl
    by_cases n false = refl

pub capacity-size_of : (d : ℕ) (z : Option ℤ) → capacity d z ≡ size_of d z
unfolding capacity
capacity-size_of d none = refl
capacity-size_of d (some (pos zero)) = refl
capacity-size_of d (some (pos (suc n))) = refl
capacity-size_of d (some (negsuc n)) = refl

-- The reply and the board after a request, as the specification has them.
abbrev pub Refines : Request → QueueManager → Type 0
Refines r m =
    let (a, m') = serve r m in
    (a, view m') ≡ reply_to m.default_max_size m.max_message_bytes r (view m)
