-- ===== src/Tests/Queues.antt =====
-- `QueueManager` on one queue with room for two messages.
use ai_coding_training.Base.{false, ◌≡◌, refl, none, some, List, [], ◌∷◌}
use ai_coding_training.Base.Int.{pos}
use ai_coding_training.Base.Action.{ok}
use ai_coding_training.Text.{Text, codes, text_eq}
use ai_coding_training.Text.Utf8.{encode, encode_char}
use ai_coding_training.Text.Names.{name_matches, is_plain_name, chop_newline, is_name_char}
use ai_coding_training.Dict.{lookup, contains, insert}
use ai_coding_training.Queues.{
  QueueManager, init, create_queue, validate_name, validate_message, put, capacity, enqueue,
  queue_not_found, queue_full,
}
use ai_coding_training.Queues.Steps.{create, send, take, call, run_queues, failed}
use ai_coding_training.Queues.Invariant.{IsValid, run_queues-IsValid, init-IsValid}
use ai_coding_training.Queues.Fifo.{waiting, enqueue_all, dequeue_times, fifo}
use ai_coding_training.Queues.Spec as Spec
use ai_coding_training.Queues.Spec.{Request, reply_to, replies, post}
use ai_coding_training.Queues.Refine.{serve_all, view}
use ai_coding_training.Queues.Refine.Replies.{serve_all-replies}

abbrev jobs : Text
jobs = codes "jobs"

abbrev first : Text × Text
first = (codes "M1", codes "hello")

abbrev second : Text × Text
second = (codes "M2", codes "world")

abbrev small : QueueManager
small = record init { queues = (jobs, record { items = first ∷ []; max_size = 2 }) ∷ [] }

created :
    (create_queue jobs (some (pos 2)) init).1
    ≡ record init { queues = (jobs, record { items = []; max_size = 2 }) ∷ [] }
unfolding create_queue validate_name name_matches is_plain_name chop_newline is_name_char put
    capacity contains insert
created = refl

found : lookup jobs small.queues ≡ some (record { items = first ∷ []; max_size = 2 })
unfolding lookup text_eq
found = refl

sent : (enqueue_all jobs (second ∷ []) small).0 ≡ ok tt
unfolding enqueue_all enqueue validate_message encode encode_char lookup text_eq put
sent = refl

fifo_example :
    let m = (enqueue_all jobs (second ∷ []) small).1 in
    (waiting jobs m ≡ first ∷ second ∷ [])
    × ((dequeue_times 2 jobs m).0 ≡ ok (some first ∷ some second ∷ []))
fifo_example = fifo jobs (second ∷ []) small _ found sent

run_queues-IsValid_example : IsValid (
    run_queues
      (create jobs (some (pos 2)) ∷ send jobs (codes "M1") (codes "hello") ∷ take jobs ∷ [])
      init)
run_queues-IsValid_example =
    run_queues-IsValid
      (create jobs (some (pos 2)) ∷ send jobs (codes "M1") (codes "hello") ∷ take jobs ∷ []) init
      init-IsValid

no_queue : (call (send jobs (codes "M1") (codes "hello")) init).0 ≡ failed (queue_not_found jobs)
unfolding call enqueue validate_message encode encode_char lookup
no_queue = refl

-- The queue is full at the second message, and the third take finds nothing.
abbrev requests : List Request
requests =
    Spec.create jobs (some (pos 1))
    ∷ Spec.send jobs (codes "M1") (codes "hello")
    ∷ Spec.send jobs (codes "M2") (codes "world")
    ∷ Spec.take jobs
    ∷ Spec.take jobs
    ∷ Spec.depth jobs
    ∷ Spec.exists (codes "logs")
    ∷ Spec.delete jobs
    ∷ []

serve_all-replies_example : serve_all requests init ≡ replies 10000 1048576 requests (view init)
serve_all-replies_example = serve_all-replies requests init

promised :
    replies 10000 1048576 requests (λ name. none)
    ≡ Spec.done
      ∷ Spec.done
      ∷ Spec.refused (queue_full jobs 1 1)
      ∷ Spec.taken (some (codes "M1", codes "hello"))
      ∷ Spec.taken none
      ∷ Spec.count 0
      ∷ Spec.answer false
      ∷ Spec.done
      ∷ []
unfolding replies reply_to post text_eq encode encode_char name_matches is_plain_name chop_newline
    is_name_char
promised = refl
