-- ===== src/Persistence/Log/Recovery.antt =====
-- Recovery after a crash: a scan finds every whole record and stops at a torn one.
use mathlib.Core.List.{map-append}
use ai_coding_training.Base.{
  ℕ, zero, suc, ◌+◌, ◌≤◌, ◌<◌, ◌≡◌, refl, sym, ap, ◌∙◌, false, ◌||◌, some, List, [], ◌∷◌, ◌++◌, map,
  arith, ltb, lt→ltb, length, drop, take, length-append, drop-append, append_assoc, append-nil,
  length-take_le, length-take-le, take_all, take-append_le, take-append-drop, inl, inr, Bool-cases,
}
use ai_coding_training.Base.Action.{ok}
use ai_coding_training.Text.{Text}
use ai_coding_training.Dict.{Dict, lookup, insert}
use ai_coding_training.Models.{Message}
use ai_coding_training.Persistence.Struct.{Bytes, value_of}
use ai_coding_training.Persistence.Codec.{serialize, deserialize, total_length}
use ai_coding_training.Persistence.Codec.RoundTrip.{
  persisted, HasTexts, deserialize-serialize, deserialize_truncated, serialize-total_length,
}
use ai_coding_training.Persistence.Log.{
  Layer, Location, scan, scan_segment, scan_segments, index_recover, recover,
}
use ai_coding_training.Persistence.Log.Stored.{length-header, take-record}

-- The bytes are the records of the messages, one behind the other.
abbrev pub Records : List Message → Bytes → Type 0
Records [] bs = bs ≡ []
Records (m ∷ ms) bs =
    (b : Bytes) × (rest : Bytes) × HasTexts m
    × (serialize m ≡ some b)
    × (bs ≡ b ++ rest)
    × Records ms rest

-- The start of a record whose write a crash has cut short; nothing at all is such a start.
pub record Torn (tail : Bytes) : Type 0 where
  pub message : Message
  pub bytes : Bytes
  pub cut : ℕ
  pub texts : HasTexts message
  pub written : serialize message ≡ some bytes
  pub early : cut < length bytes
  pub is_cut : tail ≡ take cut bytes

-- The index entries that a scan of the records from an offset on adds.
unfoldable pub index_from : Text → ℕ → List Message → Dict Location → Dict Location
index_from segment offset [] index = index
index_from segment offset (m ∷ ms) index =
    index_from segment (offset + (4 + total_length m)) ms (insert m.msg_id (segment, offset) index)

module _ (segment : Text) where
  -- One round of the loop, at a whole record.
  scan-record :
      (fuel offset : ℕ) (m : Message) (b rest : Bytes) (ms : List Message) (index : Dict Location)
      → HasTexts m
      → serialize m ≡ some b
      → scan (suc fuel) segment offset (b ++ rest) ms index
        ≡ scan fuel segment
            (offset + length b)
            rest
            (ms ++ persisted m ∷ [])
            (insert m.msg_id (segment, offset) index)
  unfolding scan persisted
  scan-record fuel offset m b rest ms index t h =
      let len = (serialize-total_length m b h).1 in
      let no_stop : (ltb (length (take 4 (b ++ rest))) 4 || ltb (length b) 4) ≡ false =
        rw (length-header m b rest h) (ground arith) in
      let whole : deserialize b ≡ ok (persisted m) =
        rw (append-nil b) at (deserialize-serialize m b [] t h) in
      rw (take-record m b rest h, no_stop, whole, take-record m b rest h, drop-append b rest)

  -- The loop ends at a torn record, and neither the messages nor the index change.
  scan-Torn :
      (fuel offset : ℕ) (tail : Bytes) (ms : List Message) (index : Dict Location)
      → Torn tail
      → scan fuel segment offset tail ms index ≡ (ms, index)
  unfolding scan
  scan-Torn zero offset tail ms index t = refl
  scan-Torn (suc fuel) offset tail ms index t = elim (Bool-cases (ltb t.cut 4)) [
    | inl no_header ↦ rw (
      t.is_cut,
      lt→ltb (length (take 4 (take t.cut t.bytes))) 4
          (ground (arith, length-take-le 4 (take t.cut t.bytes), length-take_le t.cut t.bytes)),
    )
    | inr header ↦
        rw
          (
            t.is_cut,
            whole_read (ground arith),
            deserialize_truncated t.message t.bytes t.cut t.texts t.written t.early,
          )
          (ground arith)
  ]
    where
      -- The header is there, and states more bytes than there are.
      whole_read :
          4 ≤ t.cut
          → take (4 + value_of 0 (take 4 (take t.cut t.bytes))) (take t.cut t.bytes)
            ≡ take t.cut t.bytes
      whole_read h =
          let cut_len = length-take_le t.cut t.bytes (omega arith) in
          let header : take 4 (take t.cut t.bytes) ≡ take 4 t.bytes =
            sym (take-append_le 4 (take t.cut t.bytes) (drop t.cut t.bytes) (omega arith))
            ∙ ap (λ (bs : Bytes). take 4 bs) (take-append-drop t.cut t.bytes) in
          let (total, len) = serialize-total_length t.message t.bytes t.written in
          rw (header, total)
            (take_all (4 + total_length t.message) (take t.cut t.bytes) (omega arith))

  -- The scan of records and a torn one behind them, with fuel for each byte.
  scan-Records :
      (ms : List Message) (bs tail : Bytes) (fuel offset : ℕ) (acc : List Message)
      (index : Dict Location)
      → Records ms bs
      → Torn tail
      → length bs < fuel
      → scan fuel segment offset (bs ++ tail) acc index
        ≡ (acc ++ map persisted ms, index_from segment offset ms index)
  unfolding index_from
  scan-Records [] bs tail fuel offset acc index r t h =
      rw (r, append-nil acc) (scan-Torn fuel offset tail acc index t)
  scan-Records (m ∷ ms) bs tail zero offset acc index r t h = absurd (omega arith)
  scan-Records (m ∷ ms) bs tail (suc fuel) offset acc index (b, rest, x, w, e, r) t h =
      let len = serialize-total_length m b w in
      rw
        (
          e,
          append_assoc b rest tail,
          scan-record fuel offset m b (rest ++ tail) acc index x w,
          len.1,
        )
        (rw (
          scan-Records ms rest tail fuel (offset + (4 + total_length m)) (acc ++ persisted m ∷ [])
              (insert m.msg_id (segment, offset) index) r t
              (omega (arith, ap (λ (l : Bytes). length l) e, length-append b rest)),
          append_assoc acc (persisted m ∷ []) (map persisted ms),
        ))

-- The segments hold the messages, in order, each with a torn record at its end.
abbrev pub Logged : List Text → Dict Bytes → List Message → Type 0
Logged [] files ms = ms ≡ []
Logged (n ∷ ns) files ms =
    (bs : Bytes) × (tail : Bytes) × (here : List Message) × (later : List Message) × (lookup n files
      ≡ some (bs ++ tail))
    × Records here bs
    × Torn tail
    × (ms ≡ here ++ later)
    × Logged ns files later

scan_segment-Logged :
    (n : Text) (files : Dict Bytes) (bs tail : Bytes) (ms acc : List Message)
    (index : Dict Location)
    → lookup n files ≡ some (bs ++ tail)
    → Records ms bs
    → Torn tail
    → scan_segment n files acc index ≡ (acc ++ map persisted ms, index_from n 0 ms index)
unfolding scan_segment
scan_segment-Logged n files bs tail ms acc index e r t =
    rw (e, scan_segment)
      (scan-Records n ms bs tail (suc (length (bs ++ tail))) 0 acc index r t
        (omega (arith, length-append bs tail)))

scan_segments-Logged :
    (ns : List Text) (files : Dict Bytes) (ms acc : List Message) (index : Dict Location)
    → Logged ns files ms
    → (scan_segments ns files acc index).0 ≡ acc ++ map persisted ms
unfolding scan_segments
scan_segments-Logged [] files ms acc index e = rw (e, append-nil acc)
scan_segments-Logged (n ∷ ns) files ms acc index (bs, tail, here, later, e, r, t, both, rest) =
    rw (scan_segments, scan_segment-Logged n files bs tail here acc index e r t)
      (scan_segments-Logged ns files later (acc ++ map persisted here) (index_from n 0 here index)
          rest
        ∙ append_assoc acc (map persisted here) (map persisted later)
        ∙ ap (λ (l : List Message). acc ++ l) (sym (map-append persisted here later))
        ∙ ap (λ (l : List Message). acc ++ map persisted l) (sym both))

segments-index_recover : (l : Layer) → (index_recover l).segment_mgr ≡ l.segment_mgr
unfolding index_recover
segments-index_recover l = ground arith

-- Where each segment holds whole records and then a part of one, or nothing, as a crash leaves it,
-- and the saved index has no entry, recovery returns the messages of all whole records, in the
-- order of the segments and of the records in them, each as it was written and pending.
pub recover-Logged :
    (l : Layer) (ms : List Message)
    → (index_recover l).index ≡ []
    → Logged l.segment_mgr.segments l.segment_mgr.files ms
    → (recover l).0 ≡ ok (map persisted ms)
unfolding recover
recover-Logged l ms e h =
    rw (e, recover, segments-index_recover l)
      (ap ok (scan_segments-Logged l.segment_mgr.segments l.segment_mgr.files ms [] [] h))
