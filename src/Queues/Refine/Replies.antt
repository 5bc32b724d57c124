-- ===== src/Queues/Refine/Replies.antt =====
-- Many requests to the queue manager: the replies, one after the other.
use ai_coding_training.Base.{ℕ, ◌≡◌, refl, ap, ◌∙◌, List, [], ◌∷◌, arith, Option-cases, inl, inr}
use ai_coding_training.Text.{Text}
use ai_coding_training.Dict.{lookup}
use ai_coding_training.Queues.{
  QueueManager, put, create_queue, delete_queue, enqueue, dequeue, pop_left,
}
use ai_coding_training.Queues.Spec.{Request, create, delete, send, take, depth, exists, replies}
use ai_coding_training.Queues.Refine.Single.{serve-Refines}
use ai_coding_training.Queues.Refine.{serve, serve_all, view}

-- No request changes the default capacity or the limit on bodies.
abbrev SameLimits : QueueManager → QueueManager → Type 0
SameLimits m m' =
    (m'.default_max_size ≡ m.default_max_size) × (m'.max_message_bytes ≡ m.max_message_bytes)

pop_left-SameLimits :
    (name : Text) (items : List (Text × Text)) (size : ℕ) (m : QueueManager)
    → SameLimits m (pop_left name (record { items = items; max_size = size }) m).1
unfolding pop_left put
pop_left-SameLimits name [] size m = (refl, refl)
pop_left-SameLimits name (x ∷ items) size m = (refl, refl)

serve-SameLimits : (r : Request) (m : QueueManager) → SameLimits m (serve r m).1
unfolding serve create_queue delete_queue enqueue dequeue put
serve-SameLimits (create name size) m = ground arith
serve-SameLimits (delete name) m = ground arith
serve-SameLimits (send name id body) m = ground arith
serve-SameLimits (take name) m = elim (Option-cases (lookup name m.queues)) [
  | inl gone ↦ rw gone (refl, refl)
  | inr (q, found) ↦ rw found (pop_left-SameLimits name q.items q.max_size m)
]
serve-SameLimits (depth name) m = (refl, refl)
serve-SameLimits (exists name) m = (refl, refl)

-- Whatever requests are made of a queue manager, one after the other, the replies are those of the
-- board of bounded first-in-first-out channels that it stands for.
pub serve_all-replies :
    (rs : List Request) (m : QueueManager)
    → serve_all rs m ≡ replies m.default_max_size m.max_message_bytes rs (view m)
unfolding serve_all replies
serve_all-replies [] m = refl
serve_all-replies (r ∷ rs) m =
    let m' = (serve r m).1 in
    let (same_default, same_limit) = serve-SameLimits r m in
    ap (λ as'. (serve r m).0 ∷ as') (serve_all-replies rs m')
    ∙ rw (same_default, same_limit)
        (ap (λ p. p.0 ∷ replies m.default_max_size m.max_message_bytes rs p.1) (serve-Refines r m))
