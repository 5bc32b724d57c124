-- ===== src/Persistence/Log/Durable.antt =====
-- What a crash leaves of the messages that were appended since the directory was empty.
use ai_coding_training.Base.{
  ℕ, suc, ◌≡◌, refl, ap, Bool, List, [], ◌∷◌, ◌++◌, map, append_assoc, append-nil, All,
}
use ai_coding_training.Base.Action.{ok}
use ai_coding_training.Dict.{Dict}
use ai_coding_training.Models.{Message}
use ai_coding_training.Persistence.Struct.{Bytes}
use ai_coding_training.Persistence.Codec.RoundTrip.{persisted, HasTexts}
use ai_coding_training.Persistence.Segments.{open_segments, active_name, Segments, segment_name}
use ai_coding_training.Persistence.Segments.Names.{names}
use ai_coding_training.Persistence.Segments.Numbered.{
  extended, extended-Numbered, open_segments-Numbered, open_segments-empty,
}
use ai_coding_training.Persistence.Log.{
  missing, index_recover, Layer, write, append, recover, open_layer,
}
use ai_coding_training.Persistence.Log.Recovery.{Torn, Logged, recover-Logged}
use ai_coding_training.Persistence.Log.Kept.{
  Kept, Holds, accept, append-Holds, extended-Logged, held_content,
}

-- A call of `append`: the time, the free disk space and the message.
pub record Append : Type 0 where
  pub now : ℕ
  pub free : ℕ
  pub message : Message

-- Calls of `append`, one after the other: the messages that were accepted, and the layer.
unfoldable pub append_all : List Append → Layer → List Message × Layer
append_all [] l = ([], l)
append_all (c ∷ cs) l =
    let (o, l') = append c.now c.free c.message l in
    let (ms, l'') = append_all cs l' in (accept o c.message ++ ms, l'')

append_all-Holds :
    (cs : List Append) (l : Layer) (ms : List Message)
    → All (λ (c : Append). HasTexts c.message) cs
    → Holds l.segment_mgr ms
    → Holds (append_all cs l).1.segment_mgr (ms ++ (append_all cs l).0)
unfolding append_all
append_all-Holds [] l ms ts h = rw (append-nil ms) h
append_all-Holds (c ∷ cs) l ms ts h =
    let (o, l') = append c.now c.free c.message l in
    let later =
      append_all-Holds cs l' (ms ++ accept o c.message) ts.1
        (append-Holds c.now c.free c.message ts.0 ms l h) in
    rw (append_assoc ms (accept o c.message) (append_all cs l').0) at later

-- The files after a crash that has left a part of a write to the active segment.
abbrev pub crash : Bytes → Layer → Dict Bytes
crash tail l = (write (active_name l.segment_mgr) tail l).segment_mgr.files

module _ (tail : Bytes) (l : Layer) (count : ℕ) (bytes : Bytes) (ms : List Message)
    (k : Kept l.segment_mgr count bytes ms) where
  crash-extended : crash tail l ≡ (extended count bytes tail l.segment_mgr).files
  unfolding write extended
  crash-extended =
      let name : active_name l.segment_mgr ≡ segment_name (suc count) = rw k.numbered.writes refl in
      rw (name, held_content 0 count bytes tail l k.numbered) refl

  recover-crash :
      (size now interval : ℕ) (on_write : Bool)
      → Torn tail
      → (recover (open_layer size on_write interval now (crash tail l) missing).1).0
        ≡ ok (map persisted ms)
  unfolding open_layer index_recover
  recover-crash size now interval on_write t =
      let s : Segments = extended count bytes tail l.segment_mgr in
      let n = extended-Numbered l.segment_mgr count bytes k.numbered tail in
      let opened : (open_segments size 100 (crash tail l)).1
          ≡ record s { max_segment_size = size } =
        rw crash-extended (ap (λ p. p.1) (open_segments-Numbered s count (bytes ++ tail) n size)) in
      let logged : Logged s.segments s.files ms =
        rw n.named (extended-Logged l.segment_mgr count bytes ms k tail t) in
      recover-Logged (open_layer size on_write interval now (crash tail l) missing).1 ms refl
        (rw opened logged)

empty_directory :
    (size now interval : ℕ) (on_write : Bool)
    → Holds (open_layer size on_write interval now [] missing).1.segment_mgr []
unfolding open_layer
empty_directory size now interval on_write = (
  0,
  [],
  record {
    numbered = open_segments-empty size;
    before = [];
    here = [];
    both = refl;
    full = unfold names in refl;
    records = refl;
  },
)

-- From an empty directory, after any calls of `append`, whether they return or raise, and a crash
-- that leaves no saved index and may cut a last write short, the next start, with whatever settings,
-- recovers the messages of the calls that returned, in their order, each as it was written and
-- pending. The texts of the messages hold no surrogates.
pub recover-append_all :
    (size size' now now' interval interval' : ℕ) (on_write on_write' : Bool) (cs : List Append)
    (tail : Bytes)
    → All (λ (c : Append). HasTexts c.message) cs
    → Torn tail
    → let (ms, l) = append_all cs (open_layer size on_write interval now [] missing).1 in
      (recover (open_layer size' on_write' interval' now' (crash tail l) missing).1).0
      ≡ ok (map persisted ms)
unfolding open_layer
recover-append_all size size' now now' interval interval' on_write on_write' cs tail ts t =
    let start = (open_layer size on_write interval now [] missing).1 in
    let (count, bytes, k) =
      append_all-Holds cs start [] ts (empty_directory size now interval on_write) in
    recover-crash tail (append_all cs start).1 count bytes (append_all cs start).0 k size' now'
      interval' on_write' t

-- From an empty directory, after any calls of `append` with messages whose texts hold no surrogates,
-- whether they return or raise, opening the directory again with the same size gives the segment
-- manager as it is: the same segments in the same order, the same active one, and its size.
pub open_segments-append_all :
    (size now interval : ℕ) (on_write : Bool) (cs : List Append)
    → All (λ (c : Append). HasTexts c.message) cs
    → let s = (append_all cs (open_layer size on_write interval now [] missing).1).1.segment_mgr in
      open_segments s.max_segment_size 100 s.files ≡ (ok tt, s)
open_segments-append_all size now interval on_write cs ts =
    let start = (open_layer size on_write interval now [] missing).1 in
    let (count, bytes, k) =
      append_all-Holds cs start [] ts (empty_directory size now interval on_write) in
    open_segments-Numbered (append_all cs start).1.segment_mgr count bytes k.numbered
      (append_all cs start).1.segment_mgr.max_segment_size
