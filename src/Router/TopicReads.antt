-- ===== src/Router/TopicReads.antt =====
-- Reading a topic: `consume_from_topic`.
use mathlib.Core.Path.{subst}
use mathlib.Core.List.{Perm}
use mathlib.Core.List.Perm
use ai_coding_training.Base.{
  ℕ, zero, suc, ◌+◌, ◌≤◌, ◌<◌, ◌≡◌, refl, ap, ◌∙◌, Option, some, List, [], ◌∷◌, map, arith, length,
  get_elem?, take, drop, filter,
}
use ai_coding_training.Base.Action.{ok, pure, ◌>>=◌, bind-ok, bind-pure}
use ai_coding_training.Text.{Text, text_eq}
use ai_coding_training.Text.Order.{IsSortedBy, sort_by-IsSortedBy, sort_by-perm}
use ai_coding_training.Dict.{Dict}
use ai_coding_training.Acks.{Ref, Heap}
use ai_coding_training.Router.{
  Router, RouterAction, select, get_offset, put_offset, topic_messages, consume_from_topic, advance,
}
use ai_coding_training.Router.Offsets.{get_offset-put_offset}

-- Reading one message after the other, so many times.
unfoldable pub consume_times : ℕ → Text → Text → RouterAction (List (Option Ref))
consume_times zero topic c = pure []
consume_times (suc n) topic c = do
  x ← consume_from_topic topic c
  xs ← consume_times n topic c
  pure (x ∷ xs)

get_elem?-drop :
    {A : Type 0} (i : ℕ) (xs : List A)
    → i < length xs
    → (x : A) × (get_elem? xs i ≡ some x) × (drop i xs ≡ x ∷ drop (suc i) xs)
get_elem?-drop i [] h = absurd (omega arith)
get_elem?-drop zero (x ∷ xs) h = (x, refl, refl)
get_elem?-drop (suc i) (x ∷ xs) h = get_elem?-drop i xs (omega arith)

-- The ids of the messages are in order.
abbrev pub InIdOrder : Router → List Ref → Type 0
InIdOrder s = IsSortedBy (λ r. (s.heap r).msg_id)

-- The registered messages whose target is the topic.
abbrev pub addressed : Text → Router → List Ref
addressed topic s =
    map (λ (e : Text × Ref). e.1)
      (filter (λ (e : Text × Ref). text_eq (s.heap e.1).target topic) s.messages)

select-addressed :
    (topic : Text) (h : Heap) (d : Dict Ref)
    → select (λ m. text_eq m.target topic) h d
      ≡ map (λ (e : Text × Ref). e.1) (filter (λ (e : Text × Ref). text_eq (h e.1).target topic) d)
unfolding select
select-addressed topic h [] = refl
select-addressed topic h ((id, r) ∷ d) = ground (arith, select-addressed topic h d)

module _ (topic c : Text) where
  read_one :
      (i : ℕ) (r : Ref) (s : Router)
      → get_offset topic c s ≡ i
      → get_elem? (topic_messages topic s) i ≡ some r
      → consume_from_topic topic c s ≡ (ok (some r), put_offset topic c (suc i) s)
  unfolding consume_from_topic advance
  read_one i r s o e =
      ap (λ j. advance topic c j (get_elem? (topic_messages topic s) j) s) o
      ∙ ap (λ found. advance topic c i found s) e
      ∙ ap (λ j. (ok (some r), put_offset topic c j s)) (omega arith)

  same_messages :
      (i : ℕ) (s : Router) → topic_messages topic (put_offset topic c i s) ≡ topic_messages topic s
  unfolding topic_messages put_offset
  same_messages i s = refl

  consume_times-reads :
      (n i : ℕ) (s : Router)
      → get_offset topic c s ≡ i
      → i + n ≤ length (topic_messages topic s)
      → let p = consume_times n topic c s in
        (p.0 ≡ ok (map some (take n (drop i (topic_messages topic s)))))
        × (get_offset topic c p.1 ≡ i + n)
  unfolding consume_times
  consume_times-reads zero i s o h = (refl, o ∙ omega arith)
  consume_times-reads (suc n) i s o h =
      let msgs = topic_messages topic s in
      let (r, there, rest) = get_elem?-drop i msgs (omega arith) in
      let s' = put_offset topic c (suc i) s in
      let m = same_messages (suc i) s in
      let enough : suc i + n ≤ length (topic_messages topic s') = rw m (omega arith) in
      let (reads, offset) =
        consume_times-reads n (suc i) s' (get_offset-put_offset topic c (suc i) s) enough in
      let e =
        bind-ok (consume_from_topic topic c) (λ x. do xs ← consume_times n topic c; pure (x ∷ xs)) s
          (read_one i r s o there)
        ∙ bind-pure (consume_times n topic c) (λ xs. some r ∷ xs) s' in
      rw (e, rest, reads, m) (refl, offset ∙ omega arith)

  -- A consumer whose offset on a topic is `i`, and that calls `consume_from_topic` `n` times in a row
  -- where the topic has that many messages from there on, reads the `n` messages from place `i` on of
  -- a list that holds exactly the registered messages with the topic as their target, each once for
  -- each entry, in the order of their ids; afterwards its offset has grown by `n`.
  pub consume_times_lem :
      (n i : ℕ) (s : Router)
      → get_offset topic c s ≡ i
      → i + n ≤ length (topic_messages topic s)
      → let p = consume_times n topic c s in
        let msgs = topic_messages topic s in
        InIdOrder s msgs
        × Perm msgs (addressed topic s)
        × (p.0 ≡ ok (map some (take n (drop i msgs))))
        × (get_offset topic c p.1 ≡ i + n)
  unfolding topic_messages
  consume_times_lem n i s o h =
      let id : Ref → Text = λ r. (s.heap r).msg_id in
      let found = select (λ m. text_eq m.target topic) s.heap s.messages in
      let same : Perm found (addressed topic s) =
        subst (Perm found) (select-addressed topic s.heap s.messages) (Perm.refl found) in
      let (reads, offset) = consume_times-reads n i s o h in
      (sort_by-IsSortedBy id found, Perm.trans (sort_by-perm id found) same, reads, offset)
