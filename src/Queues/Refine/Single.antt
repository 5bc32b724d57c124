-- ===== src/Queues/Refine/Single.antt =====
-- One request to the queue manager: the reply and the board after it.
use ai_coding_training.Base.{
  ℕ, ◌≡◌, refl, ap, ◌∙◌, true, false, Option, none, some, List, [], ◌∷◌, ◌++◌, arith, ltb, leb,
  length, Option-cases, Bool-cases, inl, inr,
}
use ai_coding_training.Base.Int.{ℤ}
use ai_coding_training.Base.Action.{ok, raised}
use ai_coding_training.Text.{Text, codes, is_empty}
use ai_coding_training.Dict.{lookup, contains}
use ai_coding_training.Queues.{
  Queue, QueueManager, capacity, put, queue_exists, queue_not_found, queue_full, empty_message,
  message_too_large, invalid_queue_name, create_queue, delete_queue, enqueue, dequeue, pop_left,
  get_queue_depth, queue_exists?, validate_name, validate_message,
}
use ai_coding_training.Queues.Spec.{
  Request, create, delete, send, take, depth, exists, Reply, done, taken, count, answer, channel,
  Board, post, depth_of, is_there, reply_to,
}
use ai_coding_training.Text.Names.{name_matches}
use ai_coding_training.Text.Utf8.{encode}
use ai_coding_training.Queues.Refine.{
  serve, view, view-put, view-erase, to_channel, Refines, capacity-size_of,
}

view-found :
    (name : Text) (m : QueueManager) (o : Option Queue)
    → lookup name m.queues ≡ o
    → view m name ≡ to_channel o
unfolding view
view-found name m o h = ap to_channel h

module _ (name : Text) (m : QueueManager) where
  abbrev default : ℕ
  default = m.default_max_size

  abbrev limit : ℕ
  limit = m.max_message_bytes

  -- A pair of a reply and a board, by the manager after the call.
  abbrev seen : Reply → QueueManager → Reply × Board
  seen a m' = (a, view m')

  create_unnamed :
      (size : Option ℤ)
      → is_empty name ≡ true
      → create_queue name size m
        ≡ (raised (invalid_queue_name (codes "Queue name must not be empty")), m)
  unfolding create_queue validate_name
  create_unnamed size h = ground arith

  create_misnamed :
      (size : Option ℤ)
      → is_empty name ≡ false
      → name_matches name ≡ false
      → create_queue name size m ≡ (
        raised (invalid_queue_name (codes "Queue name must match [a-zA-Z0-9_-]+, length 1-256")),
        m,
      )
  unfolding create_queue validate_name
  create_misnamed size h n = ground arith

  create_again :
      (size : Option ℤ) (q : Queue)
      → is_empty name ≡ false
      → name_matches name ≡ true
      → lookup name m.queues ≡ some q
      → create_queue name size m ≡ (raised (queue_exists name), m)
  unfolding create_queue validate_name contains
  create_again size q h n found = ground arith

  create_new :
      (size : Option ℤ)
      → is_empty name ≡ false
      → name_matches name ≡ true
      → lookup name m.queues ≡ none
      → create_queue name size m
        ≡ (ok tt, put name (record { items = []; max_size = capacity default size }) m)
  unfolding create_queue validate_name contains
  create_new size h n gone = ground arith

  create-Refines : (size : Option ℤ) → Refines (create name size) m
  unfolding serve reply_to
  create-Refines size = elim (Bool-cases (is_empty name)) [
    | inl empty ↦ rw (create_unnamed size empty, empty) refl
    | inr full ↦ elim (Bool-cases (name_matches name)) [
      | inr bad ↦ rw (create_misnamed size full bad, full, bad) refl
      | inl good ↦ elim (Option-cases (lookup name m.queues)) [
        | inl gone ↦
            rw (create_new size full good gone, full, good, view-found name m none gone)
              (ap (λ b. (done, b)) (view-put name _ m)
                ∙ ap (λ n. (done, post name (some (channel n [])) (view m)))
                    (capacity-size_of default size))
        | inr (q, found) ↦
            rw (create_again size q full good found, full, good, view-found name m (some q) found)
              refl
      ]
    ]
  ]

  delete_found-Refines :
      (items : List (Text × Text)) (size : ℕ)
      → lookup name m.queues ≡ some (record { items = items; max_size = size })
      → Refines (delete name) m
  unfolding serve delete_queue reply_to
  delete_found-Refines [] size found =
      rw (found, view-found name m _ found) (ap (λ b. (done, b)) (view-erase name m))
  delete_found-Refines (x ∷ items) size found = rw (found, view-found name m _ found) refl

  delete-Refines : Refines (delete name) m
  unfolding serve delete_queue reply_to
  delete-Refines = elim (Option-cases (lookup name m.queues)) [
    | inl gone ↦ rw (gone, view-found name m none gone) refl
    | inr (q, found) ↦ delete_found-Refines q.items q.max_size found
  ]

  take_found-Refines :
      (items : List (Text × Text)) (size : ℕ)
      → lookup name m.queues ≡ some (record { items = items; max_size = size })
      → Refines (take name) m
  unfolding serve dequeue pop_left reply_to
  take_found-Refines [] size found = rw (found, view-found name m _ found) refl
  take_found-Refines (x ∷ items) size found =
      rw (found, view-found name m _ found) (ap (λ b. (taken (some x), b)) (view-put name _ m))

  take-Refines : Refines (take name) m
  unfolding serve dequeue reply_to
  take-Refines = elim (Option-cases (lookup name m.queues)) [
    | inl gone ↦ rw (gone, view-found name m none gone) refl
    | inr (q, found) ↦ take_found-Refines q.items q.max_size found
  ]

  send_empty :
      (id body : Text) → is_empty body ≡ true → enqueue name id body m ≡ (raised empty_message, m)
  unfolding enqueue validate_message
  send_empty id body h = ground arith

  send_long :
      (id body : Text)
      → is_empty body ≡ false
      → ltb limit (length (encode body)) ≡ true
      → enqueue name id body m ≡ (raised (message_too_large limit), m)
  unfolding enqueue validate_message
  send_long id body h l = ground arith

  send_nowhere :
      (id body : Text)
      → is_empty body ≡ false
      → ltb limit (length (encode body)) ≡ false
      → lookup name m.queues ≡ none
      → enqueue name id body m ≡ (raised (queue_not_found name), m)
  unfolding enqueue validate_message
  send_nowhere id body h l gone = ground arith

  send_full :
      (id body : Text) (q : Queue)
      → is_empty body ≡ false
      → ltb limit (length (encode body)) ≡ false
      → lookup name m.queues ≡ some q
      → ltb (length q.items) q.max_size ≡ false
      → enqueue name id body m ≡ (raised (queue_full name (length q.items) q.max_size), m)
  unfolding enqueue validate_message
  send_full id body q h l found room = ground arith

  send_room :
      (id body : Text) (q : Queue)
      → is_empty body ≡ false
      → ltb limit (length (encode body)) ≡ false
      → lookup name m.queues ≡ some q
      → ltb (length q.items) q.max_size ≡ true
      → enqueue name id body m
        ≡ (ok tt, put name (record q { items = q.items ++ (id, body) ∷ [] }) m)
  unfolding enqueue validate_message
  send_room id body q h l found room = ground arith

  fits : (n : ℕ) → ltb limit n ≡ false → leb n limit ≡ true
  fits n h = ground arith

  sent-Refines :
      (id body : Text)
      → is_empty body ≡ false
      → ltb limit (length (encode body)) ≡ false
      → Refines (send name id body) m
  unfolding serve reply_to
  sent-Refines id body full short =
      let under = fits (length (encode body)) short in
      elim (Option-cases (lookup name m.queues)) [
        | inl gone ↦
            rw (send_nowhere id body full short gone, full, under, view-found name m none gone) refl
        | inr (q, found) ↦
            let at = view-found name m (some q) found in
            elim (Bool-cases (ltb (length q.items) q.max_size)) [
              | inl room ↦
                  rw (send_room id body q full short found room, full, under, at, room)
                    (ap (λ b. (done, b)) (view-put name _ m))
              | inr no_room ↦
                  rw (send_full id body q full short found no_room, full, under, at, no_room) refl
            ]
      ]

  send-Refines : (id body : Text) → Refines (send name id body) m
  unfolding serve reply_to
  send-Refines id body = elim (Bool-cases (is_empty body)) [
    | inl empty ↦ rw (send_empty id body empty, empty) refl
    | inr full ↦ elim (Bool-cases (ltb limit (length (encode body)))) [
      | inl long ↦
          let over : leb (length (encode body)) limit ≡ false = ground arith in
          rw (send_long id body full long, full, over) refl
      | inr short ↦ sent-Refines id body full short
    ]
  ]

  depth-view : get_queue_depth name m ≡ depth_of default limit (view m name)
  unfolding get_queue_depth
  depth-view = elim (Option-cases (lookup name m.queues)) [
    | inl gone ↦ rw (get_queue_depth, view-found name m none gone, gone) refl
    | inr (q, found) ↦ rw (get_queue_depth, view-found name m (some q) found, found) refl
  ]

  exists-view : queue_exists? name m ≡ is_there default limit (view m name)
  unfolding queue_exists? contains
  exists-view = elim (Option-cases (lookup name m.queues)) [
    | inl gone ↦ rw (queue_exists?, contains, view-found name m none gone, gone) refl
    | inr (q, found) ↦ rw (queue_exists?, contains, view-found name m (some q) found, found) refl
  ]

  depth-Refines : Refines (depth name) m
  unfolding serve reply_to
  depth-Refines = ap (λ n. (count n, view m)) depth-view

  exists-Refines : Refines (exists name) m
  unfolding serve reply_to
  exists-Refines = ap (λ b. (answer b, view m)) exists-view

pub serve-Refines : (r : Request) (m : QueueManager) → Refines r m
serve-Refines (create name size) m = create-Refines name m size
serve-Refines (delete name) m = delete-Refines name m
serve-Refines (send name id body) m = send-Refines name m id body
serve-Refines (take name) m = take-Refines name m
serve-Refines (depth name) m = depth-Refines name m
serve-Refines (exists name) m = exists-Refines name m
