-- ===== src/Persistence/Log/Kept.antt =====
-- The invariant of a directory that only `append` has written to: which messages it holds.
use ai_coding_training.Base.{
  ℕ, suc, ◌+◌, ◌<◌, ◌≡◌, refl, sym, ap, ◌∙◌, false, some, List, [], ◌∷◌, ◌++◌, arith, ltb, length,
  append_assoc, append-nil, inl, inr, Option-cases, Bool-cases,
}
use ai_coding_training.Base.Action.{Outcome, ok, raised}
use ai_coding_training.Text.{Text, text_eq_iff}
use ai_coding_training.Dict.{Dict, lookup, insert, lookup-insert}
use ai_coding_training.Members.{mem}
use ai_coding_training.Models.{Message}
use ai_coding_training.Persistence.Struct.{Bytes}
use ai_coding_training.Persistence.Codec.{serialize}
use ai_coding_training.Persistence.Codec.RoundTrip.{HasTexts, serialize-total_length}
use ai_coding_training.Persistence.Segments.{
  Segments, PersistError, content, segment_name, get_active_segment,
}
use ai_coding_training.Persistence.Segments.Names.{names, mem-names}
use ai_coding_training.Persistence.Segments.Numbered.{
  Numbered, rolled, extended, rolled-Numbered, extended-Numbered, get_active_segment-cases,
}
use ai_coding_training.Persistence.Log.{
  Layer, min_free, write, note_bytes, index_put, timed_fsync, append, append_bytes,
}
use ai_coding_training.Persistence.Log.Appends.{
  taken, append_unpacked, append_no_segment, append_disk,
}
use ai_coding_training.Persistence.Log.Recovery.{Records, Torn, Logged}

Records-snoc :
    (ms : List Message) (bs b : Bytes) (m : Message)
    → Records ms bs
    → HasTexts m
    → serialize m ≡ some b
    → Records (ms ++ m ∷ []) (bs ++ b)
Records-snoc [] bs b m e t h = (b, [], t, h, rw (e, append-nil b) refl, refl)
Records-snoc (k ∷ ms) bs b m (c, rest, x, w, e, r) t h =
    (c, rest ++ b, x, w, rw (e, append_assoc c rest b) refl, Records-snoc ms rest b m r t h)

-- A write to another file.
Logged-insert :
    (ns : List Text) (files : Dict Bytes) (ms : List Message) (n : Text) (v : Bytes)
    → mem n ns ≡ false
    → Logged ns files ms
    → Logged ns (insert n v files) ms
unfolding mem
Logged-insert [] files ms n v absent e = e
Logged-insert (k ∷ ns) files ms n v absent (bs, tail, here, later, e, r, t, both, rest) =
    let other : lookup k (insert n v files) ≡ some (bs ++ tail) =
      ground (arith, lookup-insert {V = Bytes} n k v files, text_eq_iff n k, text_eq_iff k n) in
    (bs, tail, here, later, other, r, t, both, Logged-insert ns files later n v (ground arith) rest)

-- One more segment, with its records and the torn one behind them.
Logged-snoc :
    (ns : List Text) (files : Dict Bytes) (ms : List Message) (n : Text) (bs tail : Bytes)
    (here : List Message)
    → Logged ns files ms
    → lookup n files ≡ some (bs ++ tail)
    → Records here bs
    → Torn tail
    → Logged (ns ++ n ∷ []) files (ms ++ here)
Logged-snoc [] files ms n bs tail here e f r t =
    (bs, tail, here, [], f, r, t, rw (e, append-nil here) refl, refl)
Logged-snoc (k ∷ ns) files ms n bs tail here (cs, end, first, later, e, q, u, both, rest) f r t = (
  cs,
  end,
  first,
  later ++ here,
  e,
  q,
  u,
  rw (both, append_assoc first later here) refl,
  Logged-snoc ns files later n bs tail here rest f r t,
)

-- The directory holds the messages, in order, in segments without a torn record: `count` segments
-- before the active one, and the bytes in that one.
pub record Kept (s : Segments) (count : ℕ) (bytes : Bytes) (ms : List Message) : Type 0 where
  pub numbered : Numbered s count bytes
  pub before : List Message
  pub here : List Message
  pub both : ms ≡ before ++ here
  pub full : Logged (names count) s.files before
  pub records : Records here bytes

module _ (s : Segments) (count : ℕ) (bytes : Bytes) (ms : List Message)
    (k : Kept s count bytes ms) where
  pub Kept-rolled : suc count < 100 → Torn [] → Kept (rolled count s) (suc count) [] ms
  unfolding rolled names
  Kept-rolled l none_torn =
      let name = segment_name (suc (suc count)) in
      let file : lookup (segment_name (suc count)) s.files ≡ some (bytes ++ []) =
        rw (append-nil bytes) k.numbered.holds in
      let whole : Logged (names (suc count)) s.files (k.before ++ k.here) =
        Logged-snoc (names count) s.files k.before (segment_name (suc count)) bytes [] k.here k.full
          file k.records none_torn in
      record {
        numbered = rolled-Numbered s count bytes k.numbered l;
        before = ms;
        here = [];
        both = sym (append-nil ms);
        full =
            Logged-insert (names (suc count)) s.files ms name [] (mem-names (suc count))
              (rw (← k.both) at whole);
        records = refl;
      }

  pub Kept-extended :
      (m : Message) (b : Bytes)
      → serialize m ≡ some b
      → HasTexts m
      → Kept (extended count bytes b s) count (bytes ++ b) (ms ++ m ∷ [])
  unfolding extended
  Kept-extended m b w t = record {
    numbered = extended-Numbered s count bytes k.numbered b;
    before = k.before;
    here = k.here ++ m ∷ [];
    both = rw (k.both, append_assoc k.before k.here (m ∷ [])) refl;
    full =
        Logged-insert (names count) s.files k.before (segment_name (suc count)) (bytes ++ b)
          (mem-names count) k.full;
    records = Records-snoc k.here bytes b m k.records t w;
  }

  -- With the start of a record behind the last segment, as a crash in a write leaves it.
  pub extended-Logged :
      (tail : Bytes) → Torn tail → Logged (names (suc count)) (extended count bytes tail s).files ms
  unfolding extended names
  extended-Logged tail t =
      let name = segment_name (suc count) in
      let files = insert name (bytes ++ tail) s.files in
      let held : lookup name files ≡ some (bytes ++ tail) = ground (
        arith,
        lookup-insert {V = Bytes} name name (bytes ++ tail) s.files,
        text_eq_iff name name,
      ) in
      let rest =
        Logged-insert (names count) s.files k.before name (bytes ++ tail) (mem-names count)
          k.full in
      rw k.both
        (Logged-snoc (names count) files k.before name bytes tail k.here rest held k.records t)

timed_fsync-segment_mgr : (now : ℕ) (l : Layer) → (timed_fsync now l).segment_mgr ≡ l.segment_mgr
unfolding timed_fsync
timed_fsync-segment_mgr now l = ground arith

module _ (now count : ℕ) (bs b : Bytes) (l : Layer) (h : Numbered l.segment_mgr count bs) where
  pub held_content : content (segment_name (suc count)) l.segment_mgr.files ≡ bs
  held_content = rw (h.holds, content) refl

  append_bytes-extended :
      (id : Text)
      → (append_bytes now id (segment_name (suc count)) b l).1.segment_mgr
        ≡ extended count bs b l.segment_mgr
  unfolding append_bytes extended write note_bytes index_put
  append_bytes-extended id =
      timed_fsync-segment_mgr now _
      ∙ ap
          (λ (c : Bytes). record l.segment_mgr {
            files = insert (segment_name (suc count)) (c ++ b) l.segment_mgr.files;
            active_size = l.segment_mgr.active_size + length b;
          })
          held_content

-- The messages of which `append` returned an offset.
abbrev pub accept : Outcome PersistError ℕ → Message → List Message
accept (ok offset) m = m ∷ []
accept (raised e) m = []

-- For some count and bytes.
abbrev pub Holds : Segments → List Message → Type 0
Holds s ms = (count : ℕ) × (bytes : Bytes) × Kept s count bytes ms

nothing-Torn : (m : Message) (b : Bytes) → serialize m ≡ some b → HasTexts m → Torn []
nothing-Torn m b w t = record {
  message = m;
  bytes = b;
  cut = 0;
  texts = t;
  written = w;
  early = let (e, len) = serialize-total_length m b w in omega (arith, e);
  is_cut = refl;
}

module _ (now free : ℕ) (m : Message) (t : HasTexts m) (ms : List Message) (l : Layer) where
  same_messages : Holds l.segment_mgr ms → Holds l.segment_mgr (ms ++ [])
  same_messages k = rw (append-nil ms) k

  -- Where the active segment has been taken, and the message is written or refused for lack of space.
  append_at :
      (s : Segments) (count : ℕ) (bytes b : Bytes)
      → Kept s count bytes ms
      → serialize m ≡ some b
      → get_active_segment l.segment_mgr ≡ (ok (segment_name (suc count)), s)
      → Holds (append now free m l).1.segment_mgr (ms ++ accept (append now free m l).0 m)
  unfolding taken
  append_at s count bytes b k w e =
      let here : (taken now free m l).segment_mgr ≡ s = ap (λ p. p.1) e in
      let held : Kept (taken now free m l).segment_mgr count bytes ms = rw here k in
      elim (Bool-cases (ltb free min_free)) [
        | inl low ↦
            rw (append_disk now free m l b (segment_name (suc count)) w (ap (λ p. p.0) e), low)
              (count, bytes, rw (append-nil ms) held)
        | inr room ↦
            rw (append_disk now free m l b (segment_name (suc count)) w (ap (λ p. p.0) e), room)
              (
                count,
                bytes ++ b,
                rw
                    (append_bytes-extended now count bytes b (taken now free m l) held.numbered
                      m.msg_id)
                    (Kept-extended (taken now free m l).segment_mgr count bytes ms held m b w t),
              )
      ]

  pub append-Holds :
      Holds l.segment_mgr ms
      → Holds (append now free m l).1.segment_mgr (ms ++ accept (append now free m l).0 m)
  unfolding taken
  append-Holds (count, bytes, k) = elim (Option-cases (serialize m)) [
    | inl w ↦ rw (append_unpacked now free m l w) (same_messages (count, bytes, k))
    | inr (b, w) ↦ elim (get_active_segment-cases l.segment_mgr count bytes k.numbered) [
      | inl e ↦ append_at l.segment_mgr count bytes b k w e
      | inr (inl (less, e)) ↦
          let next = Kept-rolled l.segment_mgr count bytes ms k less (nothing-Torn m b w t) in
          append_at (rolled count l.segment_mgr) (suc count) [] b next w e
      | inr (inr e) ↦
          rw (append_no_segment now free m l b _ w (ap (λ p. p.0) e), e, append-nil ms)
            (count, bytes, k)
    ]
  ]
