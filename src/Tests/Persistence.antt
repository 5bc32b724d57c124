-- ===== src/Tests/Persistence.antt =====
-- The log with one message in one segment.
use ai_coding_training.Base.{
  ◌⊎◌, ◌↔◌, ◌*◌, ◌≤◌, ◌<◌, ◌≡◌, ◌≢◌, refl, sym, true, false, some, List, [], ◌∷◌, map, All, ◌++◌,
  arith, length, take, ltb, append-nil, inl, all,
}
use ai_coding_training.Base.Int.{pos, negsuc}
use ai_coding_training.Base.Action.{ok}
use ai_coding_training.Text.{Text, codes, text_eq, text_eq→ne}
use ai_coding_training.Text.Utf8.{IsText, encode, decode, encode_char}
use ai_coding_training.Text.Utf8.RoundTrip.{decode-encode}
use ai_coding_training.Text.Names.{name_matches, IsName, name_matches_iff}
use ai_coding_training.Dict.{Dict, lookup}
use ai_coding_training.Models.{Message, new_message}
use ai_coding_training.Persistence.Struct.{
  Bytes, fits_signed, pack_unsigned, pack_signed, to_word, big_endian, bound,
}
use ai_coding_training.Persistence.Codec.{serialize, deserialize, total_length}
use ai_coding_training.Persistence.Codec.RoundTrip.{
  persisted, HasTexts, Fits, layout, serialize-layout, deserialize-serialize,
  serialize-total_length,
}
use ai_coding_training.Persistence.Segments.{open_segments, get_active_segment, needs_roll}
use ai_coding_training.Persistence.Log.{
  Layer, Location, SavedIndex, missing, entries, index_get, append, append_bytes, end_of,
  check_disk_space, read, recover, index_recover, close, open_layer, min_free,
}
use ai_coding_training.Persistence.Log.Stored.{At, Stored, read-Stored}
use ai_coding_training.Persistence.Log.Appends.{append-Stored, append-Stored_self}
use ai_coding_training.Persistence.Log.Recovery.{Torn, Logged, recover-Logged}
use ai_coding_training.Persistence.Log.Durable.{
  Append, append_all, crash, recover-append_all, open_segments-append_all,
}
use ai_coding_training.Persistence.Log.Reopen.{Indexes, recover-close, length-recover_saved}

abbrev pub hello : Message
hello = new_message (codes "M1") (codes "jobs") (codes "hello") 5000000 (negsuc 0)

abbrev bye : Message
bye = new_message (codes "M2") (codes "jobs") (codes "bye") 6000000 (pos 0)

ascii-IsText : (s : Text) → all (λ c. ltb c 128) s ≡ true → IsText s
ascii-IsText [] h = tt
ascii-IsText (c ∷ s) h = ((ground arith, inl (ground arith)), ascii-IsText s (ground arith))

hello_texts : HasTexts hello
unfolding new_message
hello_texts = record {
  msg_id = ascii-IsText hello.msg_id refl;
  target = ascii-IsText hello.target refl;
  body = ascii-IsText hello.body refl;
}

hello-Fits : Fits hello
unfolding new_message total_length encode encode_char
hello-Fits = record {
  total = omega arith;
  msg_id = omega arith;
  target = omega arith;
  body = omega arith;
  timestamp = unfold fits_signed in refl;
  ttl = unfold fits_signed in refl;
  ack_timeout = unfold fits_signed in refl;
}

hello_written : serialize hello ≡ some (layout hello)
hello_written = serialize-layout hello hello-Fits

deserialize-serialize_example : deserialize (layout hello ++ b'x' ∷ []) ≡ ok (persisted hello)
deserialize-serialize_example =
    deserialize-serialize hello (layout hello) (b'x' ∷ []) hello_texts hello_written

long_enough : 3 < length (layout hello)
long_enough =
    let l = serialize-total_length hello (layout hello) hello_written in omega (arith, l.1)

decode-encode_example : decode (encode (codes "grün")) ≡ some (codes "grün")
decode-encode_example = decode-encode (codes "grün") (
  (omega arith, inl (omega arith)),
  (
    (omega arith, inl (omega arith)),
    ((omega arith, inl (omega arith)), ((omega arith, inl (omega arith)), tt)),
  ),
)

name_matches_iff_example :
    (name_matches (codes "jobs" ++ 10 ∷ []) ≡ true)
    ↔ (t : Text) × IsName t
      × ((codes "jobs" ++ 10 ∷ [] ≡ t) ⊎ (codes "jobs" ++ 10 ∷ [] ≡ t ++ 10 ∷ []))
name_matches_iff_example = name_matches_iff (codes "jobs" ++ 10 ∷ [])

abbrev log1 : Text
log1 = codes "mq-0001.log"

-- The layer over one segment, by its content, its index and the saved index.
abbrev pub layer : Bytes → Dict Location → SavedIndex → Layer
layer bs index saved = record {
  fsync_on_write = true;
  fsync_interval = 100000;
  last_fsync = 0;
  segment_mgr = record {
    max_segment_size = 1000;
    max_segments = 100;
    active = some log1;
    active_size = 0;
    segments = log1 ∷ [];
    files = (log1, bs) ∷ [];
  };
  index = index;
  saved = saved;
}

abbrev indexed : Dict Location
indexed = (codes "M1", (log1, 0)) ∷ []

abbrev one_record : Layer
one_record = layer (layout hello) indexed missing

hello-At : At (layout hello) 0 (layout hello)
hello-At = record { before = []; after = []; split = sym (append-nil (layout hello)); place = refl }

hello-Stored : Stored one_record hello
unfolding new_message index_get lookup text_eq
hello-Stored = record {
  segment = log1;
  offset = 0;
  file = layout hello;
  bytes = layout hello;
  indexed = refl;
  on_disk = refl;
  written = hello_written;
  here = hello-At;
  texts = hello_texts;
}

read-Stored_example : read hello.msg_id one_record ≡ ok (some (persisted hello))
read-Stored_example = read-Stored one_record hello hello-Stored

other_id : hello.msg_id ≢ bye.msg_id
unfolding new_message text_eq
other_id = text_eq→ne _ _ refl

append-Stored_example : Stored (append 7000000 (2 * min_free) bye one_record).1 hello
append-Stored_example =
    append-Stored 7000000 (2 * min_free) bye one_record hello other_id hello-Stored

torn : Torn (take 3 (layout hello))
torn = record {
  message = hello;
  bytes = layout hello;
  cut = 3;
  texts = hello_texts;
  written = hello_written;
  early = long_enough;
  is_cut = refl;
}

abbrev pub crashed : Layer
crashed = layer (layout hello ++ take 3 (layout hello)) [] missing

pub crashed_index : (index_recover crashed).index ≡ []
unfolding index_recover
crashed_index = refl

pub crashed-Logged : Logged crashed.segment_mgr.segments crashed.segment_mgr.files (hello ∷ [])
unfolding lookup text_eq
crashed-Logged = (
  layout hello,
  take 3 (layout hello),
  hello ∷ [],
  [],
  refl,
  (layout hello, [], hello_texts, hello_written, sym (append-nil (layout hello)), refl),
  torn,
  refl,
  refl,
)

recover-Logged_example : (recover crashed).0 ≡ ok (persisted hello ∷ [])
recover-Logged_example = recover-Logged crashed (hello ∷ []) crashed_index crashed-Logged

hello-Indexes : Indexes indexed one_record.segment_mgr.files (hello ∷ [])
unfolding lookup text_eq
hello-Indexes =
    (hello, [], layout hello, layout hello, refl, refl, hello_written, hello-At, hello_texts, refl)

abbrev reopened : Layer
reopened =
    let closed = close 8 one_record in
    (open_layer 1000 true 100000 9 closed.segment_mgr.files closed.saved).1

recover-close_example : (recover reopened).0 ≡ ok (persisted hello ∷ [])
recover-close_example =
    recover-close one_record (hello ∷ []) 1000 8 9 100000 true (codes "M1") (log1, 0) [] refl
      hello-Indexes

reopened_saved : reopened.saved ≡ entries indexed
unfolding close open_layer
reopened_saved = refl

reopened_messages : (recover reopened).0 ≡ ok (persisted hello ∷ [])
reopened_messages =
    recover-close one_record (hello ∷ []) 1000 8 9 100000 true (codes "M1") (log1, 0) [] refl
      hello-Indexes

length-recover_saved_example : length (persisted hello ∷ []) ≤ length indexed
length-recover_saved_example =
    length-recover_saved reopened (codes "M1") (log1, 0) [] (persisted hello ∷ []) reopened_saved
      reopened_messages

appended : (append 7000000 (2 * min_free) hello (layer [] [] missing)).0 ≡ ok 0
unfolding append serialize pack_unsigned pack_signed fits_signed to_word big_endian total_length
    encode encode_char get_active_segment needs_roll check_disk_space append_bytes end_of bound
    new_message lookup text_eq
appended = refl

append-Stored_self_example :
    Stored (append 7000000 (2 * min_free) hello (layer [] [] missing)).1 hello
append-Stored_self_example =
    append-Stored_self 7000000 (2 * min_free) hello (layer [] [] missing) 0 appended hello_texts

-- A message that is written, and one for which there is no room on the disk.
abbrev calls : List Append
calls =
    record { now = 1; free = 2 * min_free; message = hello }
    ∷ record { now = 2; free = 0; message = bye }
    ∷ record { now = 3; free = 2 * min_free; message = hello }
    ∷ []

bye_texts : HasTexts bye
unfolding new_message
bye_texts = record {
  msg_id = ascii-IsText bye.msg_id refl;
  target = ascii-IsText bye.target refl;
  body = ascii-IsText bye.body refl;
}

calls_texts : All (λ (c : Append). HasTexts c.message) calls
calls_texts = (hello_texts, (bye_texts, (hello_texts, tt)))

recover-append_all_example :
    let (ms, l) = append_all calls (open_layer 10 true 100000 0 [] missing).1 in
    (recover (open_layer 500 false 0 9 (crash (take 3 (layout hello)) l) missing).1).0
    ≡ ok (map persisted ms)
recover-append_all_example =
    recover-append_all 10 500 0 9 100000 0 true false calls (take 3 (layout hello)) calls_texts torn

open_segments-append_all_example :
    let s = (append_all calls (open_layer 10 true 100000 0 [] missing).1).1.segment_mgr in
    open_segments s.max_segment_size 100 s.files ≡ (ok tt, s)
open_segments-append_all_example = open_segments-append_all 10 0 100000 true calls calls_texts
