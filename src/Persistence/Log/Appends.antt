-- ===== src/Persistence/Log/Appends.antt =====
-- What `append` does to the messages of the log.
use ai_coding_training.Base.{
  ℕ, ◌+◌, ◌≡◌, ◌≢◌, refl, ap, none, some, [], ◌++◌, arith, ltb, if◌then◌else◌, length, append_assoc,
  append-nil, inl, inr, Option-cases, Bool-cases,
}
use ai_coding_training.Base.Action.{Outcome, ok, raised, Outcome-cases}
use ai_coding_training.Text.{Text, text_eq, text_eq_iff}
use ai_coding_training.Dict.{lookup, contains, lookup-insert}
use ai_coding_training.Models.{Message}
use ai_coding_training.Persistence.Struct.{Bytes}
use ai_coding_training.Persistence.Codec.{serialize}
use ai_coding_training.Persistence.Codec.RoundTrip.{HasTexts}
use ai_coding_training.Persistence.Segments.{
  Segments, content, touch, segment_name, get_active_segment, PersistError, pack_error, disk_low,
}
use ai_coding_training.Persistence.Log.{
  Layer, Location, index_get, append, append_bytes, min_free, check_disk_space, end_of,
}
use ai_coding_training.Persistence.Log.Stored.{At, Stored}

At-append :
    (bs : Bytes) (offset : ℕ) (file more : Bytes) → At bs offset file → At bs offset (file ++ more)
At-append bs offset file more a = record {
  before = a.before;
  after = a.after ++ more;
  split = rw a.split (simp append_assoc);
  place = a.place;
}

-- Taking the active segment, and making it if need be, changes the content of no file.
get_active_segment-files :
    (s : Segments) (n : Text) (file : Bytes)
    → lookup n s.files ≡ some file
    → lookup n (get_active_segment s).1.files ≡ some file
unfolding get_active_segment touch contains
get_active_segment-files s n file h =
    let name = segment_name (length s.segments + 1) in
    ground (arith, lookup-insert {V = Bytes} name n [] s.files, text_eq_iff name n)

module _ (now : ℕ) (id segment : Text) (bs : Bytes) (l : Layer) where
  index_get-append_bytes :
      (j : Text)
      → index_get j (append_bytes now id segment bs l).1
        ≡ (if text_eq id j then some (segment, end_of segment l) else index_get j l)
  unfolding append_bytes index_get
  index_get-append_bytes j =
      ground (arith, lookup-insert {V = Location} id j (segment, end_of segment l) l.index)

  files-append_bytes :
      (n : Text)
      → lookup n (append_bytes now id segment bs l).1.segment_mgr.files ≡ (
          if text_eq segment n
          then some (content segment l.segment_mgr.files ++ bs)
          else lookup n l.segment_mgr.files)
  unfolding append_bytes
  files-append_bytes n = ground (
    arith,
    lookup-insert {V = Bytes} segment n (content segment l.segment_mgr.files ++ bs)
        l.segment_mgr.files,
  )

  append_bytes-Stored :
      (k : Message) → k.msg_id ≢ id → Stored l k → Stored (append_bytes now id segment bs l).1 k
  append_bytes-Stored k ne s =
      let same : index_get k.msg_id (append_bytes now id segment bs l).1
          ≡ some (s.segment, s.offset) =
        ground (arith, index_get-append_bytes k.msg_id, text_eq_iff id k.msg_id, s.indexed) in
      elim (Bool-cases (text_eq segment s.segment)) [
        | inl hit ↦ record {
          segment = s.segment;
          offset = s.offset;
          file = s.file ++ bs;
          bytes = s.bytes;
          indexed = same;
          on_disk =
              ground
                (arith, files-append_bytes s.segment, text_eq_iff segment s.segment, s.on_disk);
          written = s.written;
          here = At-append s.bytes s.offset s.file bs s.here;
          texts = s.texts;
        }
        | inr miss ↦ record {
          segment = s.segment;
          offset = s.offset;
          file = s.file;
          bytes = s.bytes;
          indexed = same;
          on_disk = ground (arith, files-append_bytes s.segment, s.on_disk);
          written = s.written;
          here = s.here;
          texts = s.texts;
        }
      ]

  append_bytes-Stored_self :
      (m : Message)
      → m.msg_id ≡ id
      → serialize m ≡ some bs
      → HasTexts m
      → Stored (append_bytes now id segment bs l).1 m
  append_bytes-Stored_self m e h t = record {
    segment = segment;
    offset = end_of segment l;
    file = content segment l.segment_mgr.files ++ bs;
    bytes = bs;
    indexed = ground (arith, index_get-append_bytes m.msg_id, text_eq_iff id m.msg_id, e);
    on_disk = ground (arith, files-append_bytes segment, text_eq_iff segment segment);
    written = h;
    here = record {
      before = content segment l.segment_mgr.files;
      after = [];
      split = rw append-nil;
      place = unfold end_of in refl;
    };
    texts = t;
  }

abbrev pub with_segments : (l : Layer) (s : Segments) → Layer
with_segments l s = record l { segment_mgr = s }

with_segments-Stored :
    (l : Layer) (k : Message)
    → Stored l k
    → Stored (with_segments l (get_active_segment l.segment_mgr).1) k
unfolding index_get
with_segments-Stored l k s = record {
  segment = s.segment;
  offset = s.offset;
  file = s.file;
  bytes = s.bytes;
  indexed = s.indexed;
  on_disk = get_active_segment-files l.segment_mgr s.segment s.file s.on_disk;
  written = s.written;
  here = s.here;
  texts = s.texts;
}

module _ (now free : ℕ) (m : Message) (l : Layer) where
  -- The layer after the active segment has been taken.
  unfoldable pub taken : Layer
  taken = with_segments l (get_active_segment l.segment_mgr).1

  pub append_unpacked : serialize m ≡ none → append now free m l ≡ (raised pack_error, l)
  unfolding append
  append_unpacked h = rw h

  pub append_no_segment :
      (bs : Bytes) (e : PersistError)
      → serialize m ≡ some bs
      → (get_active_segment l.segment_mgr).0 ≡ raised e
      → append now free m l ≡ (raised e, taken)
  unfolding append taken
  append_no_segment bs e h g = ground arith

  pub append_disk :
      (bs : Bytes) (segment : Text)
      → serialize m ≡ some bs
      → (get_active_segment l.segment_mgr).0 ≡ ok segment
      → append now free m l ≡ (
          if ltb free min_free
          then (raised disk_low, taken)
          else let (offset, l') = append_bytes now m.msg_id segment bs taken in (ok offset, l'))
  unfolding append taken check_disk_space
  append_disk bs segment h g = ground arith

  -- Whether it succeeds or raises, `append` keeps every message stored that has another id.
  pub append-Stored :
      (k : Message) → k.msg_id ≢ m.msg_id → Stored l k → Stored (append now free m l).1 k
  append-Stored k ne s = elim (Option-cases (serialize m)) [
    | inl h ↦ rw (append_unpacked h) s
    | inr (bs, h) ↦ elim (Outcome-cases (get_active_segment l.segment_mgr).0) [
      | inr (e, g) ↦ rw (append_no_segment bs e h g) kept
      | inl (segment, g) ↦ elim (Bool-cases (ltb free min_free)) [
        | inl low ↦ rw (append_disk bs segment h g, low) kept
        | inr room ↦
            rw (append_disk bs segment h g, room)
              (append_bytes-Stored now m.msg_id segment bs taken k ne kept)
      ]
    ]
  ]
    where
      kept : Stored taken k
      kept = unfold taken in with_segments-Stored l k s

  -- Where `append` of a message whose texts hold no surrogates returns an offset, the message is
  -- stored: the index names a segment and an offset at which its bytes stand.
  pub append-Stored_self :
      (offset : ℕ)
      → (append now free m l).0 ≡ ok offset
      → HasTexts m
      → Stored (append now free m l).1 m
  append-Stored_self offset done t = elim (Option-cases (serialize m)) [
    | inl h ↦ absurd (failed pack_error (ap fst_of (append_unpacked h)))
    | inr (bs, h) ↦ elim (Outcome-cases (get_active_segment l.segment_mgr).0) [
      | inr (e, g) ↦ absurd (failed e (ap fst_of (append_no_segment bs e h g)))
      | inl (segment, g) ↦ elim (Bool-cases (ltb free min_free)) [
        | inl low ↦ absurd (failed disk_low (ground (arith, append_disk bs segment h g)))
        | inr room ↦
            rw (append_disk bs segment h g, room)
              (append_bytes-Stored_self now m.msg_id segment bs taken m refl h t)
      ]
    ]
  ]
    where
      fst_of : Outcome PersistError ℕ × Layer → Outcome PersistError ℕ
      fst_of p = p.0

      failed : (e : PersistError) → (append now free m l).0 ≡ raised e → ⊥
      failed e h = cc
