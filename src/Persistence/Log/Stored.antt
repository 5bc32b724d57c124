-- ===== src/Persistence/Log/Stored.antt =====
-- What a message in the log is, and that reading finds it.
use ai_coding_training.Base.{
  ℕ, ◌+◌, ◌≡◌, some, [], ◌++◌, arith, length, take, length-append, take-append, drop-append,
  append-nil, take-append_le, length-take_le,
}
use ai_coding_training.Base.Action.{ok}
use ai_coding_training.Text.{Text}
use ai_coding_training.Dict.{lookup}
use ai_coding_training.Models.{Message}
use ai_coding_training.Persistence.Struct.{Bytes, value_of}
use ai_coding_training.Persistence.Codec.{serialize}
use ai_coding_training.Persistence.Codec.RoundTrip.{
  persisted, HasTexts, deserialize-serialize, serialize-total_length,
}
use ai_coding_training.Persistence.Log.{Layer, index_get, read_record, read_at, read}

-- The bytes of a message stand in a file at an offset, with others before and behind them.
pub record At (bs : Bytes) (offset : ℕ) (file : Bytes) : Type 0 where
  pub before : Bytes
  pub after : Bytes
  pub split : file ≡ before ++ (bs ++ after)
  pub place : length before ≡ offset

-- The index names a file and an offset at which the message stands, as `serialize` writes it.
pub record Stored (l : Layer) (m : Message) : Type 0 where
  pub segment : Text
  pub offset : ℕ
  pub file : Bytes
  pub bytes : Bytes
  pub indexed : index_get m.msg_id l ≡ some (segment, offset)
  pub on_disk : lookup segment l.segment_mgr.files ≡ some file
  pub written : serialize m ≡ some bytes
  pub here : At bytes offset file
  pub texts : HasTexts m

module _ (m : Message) (bs rest : Bytes) (h : serialize m ≡ some bs) where
  pub length-header : length (take 4 (bs ++ rest)) ≡ 4
  length-header =
      length-take_le 4 (bs ++ rest)
        (omega (arith, (serialize-total_length m bs h).1, length-append bs rest))

  -- The header tells where the record ends.
  pub take-record : take (4 + value_of 0 (take 4 (bs ++ rest))) (bs ++ rest) ≡ bs
  take-record =
      let (total, len) = serialize-total_length m bs h in
      rw (take-append_le 4 bs rest (omega arith), total, ← len) (take-append bs rest)

  -- A record with anything behind it is read.
  pub read_record-serialize : HasTexts m → read_record (bs ++ rest) ≡ ok (some (persisted m))
  unfolding read_record
  read_record-serialize t =
      rw (length-header, take-record, ← append-nil bs, deserialize-serialize m bs [] t h)

pub read_at-here :
    (m : Message) (segment : Text) (offset : ℕ) (file bs : Bytes) (l : Layer)
    → lookup segment l.segment_mgr.files ≡ some file
    → serialize m ≡ some bs
    → HasTexts m
    → At bs offset file
    → read_at segment offset l ≡ ok (some (persisted m))
unfolding read_at
read_at-here m segment offset file bs l e h t a =
    rw (e, read_at, a.split, ← a.place, drop-append a.before (bs ++ a.after))
      (read_record-serialize m bs a.after h t)

-- A message that is stored, so that the index names a segment and an offset at which its bytes
-- stand, is what `read` returns for its id, in the state in which a message starts.
pub read-Stored : (l : Layer) (m : Message) → Stored l m → read m.msg_id l ≡ ok (some (persisted m))
unfolding read
read-Stored l m s =
    rw (s.indexed, read)
      (read_at-here m s.segment s.offset s.file s.bytes l s.on_disk s.written s.texts s.here)
