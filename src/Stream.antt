-- ===== src/Stream.antt =====
-- The coalescer of terminal output: crates/term-stream/src/lib.rs.
pub mod Frames
use tern.Prelude.{
  ℕ, ◌+◌, ◌%◌, ◌^◌, Bool, true, false, ◌&&◌, ◌||◌, List, [], ◌∷◌, ◌++◌, Text, newline, length, leb,
  ltb, nat_beq, is_empty, filter, if◌then◌else◌,
}

-- The counters that `coalesce` writes, each an `AtomicU64`.
pub record StreamStats : Type 0 where
  pub bytes_in : ℕ
  pub newlines_in : ℕ
  pub frames_out : ℕ
  pub bytes_out : ℕ
  pub max_frame_bytes : ℕ

abbrev pub no_stats : StreamStats
no_stats = record {
  bytes_in = 0;
  newlines_in = 0;
  frames_out = 0;
  bytes_out = 0;
  max_frame_bytes = 0;
}

-- `fetch_add`
abbrev pub add_u64 : ℕ → ℕ → ℕ
add_u64 a b = (a + b) % 2 ^ 64

unfoldable pub count_newlines : Text → ℕ
count_newlines chunk = length (filter (λ b. nat_beq b newline) chunk)

unfoldable pub record_in : StreamStats → Text → StreamStats
unfolding count_newlines
record_in st chunk = record st {
  bytes_in = add_u64 st.bytes_in (length chunk);
  newlines_in =
      (if ltb 0 (count_newlines chunk)
        then add_u64 st.newlines_in (count_newlines chunk)
        else st.newlines_in);
}

unfoldable pub record_out : StreamStats → ℕ → StreamStats
record_out st frame_len = record st {
  frames_out = add_u64 st.frames_out 1;
  bytes_out = add_u64 st.bytes_out frame_len;
  max_frame_bytes = (if leb frame_len st.max_frame_bytes then st.max_frame_bytes else frame_len);
}

-- What `coalesce` holds, and the frames that `output` has taken. `returned` is its end.
pub record Coalescer : Type 0 where
  pub buf : Text
  pub frames : List Text
  pub stats : StreamStats
  pub returned : Bool

abbrev pub fresh : Coalescer
fresh = record { buf = []; frames = []; stats = no_stats; returned = false }

-- What happens to the task. `late` is `last_flush.elapsed() >= cfg.tick`, and `taken` is what the
-- consumer does with a frame that is sent at that point.
pub data Happening : Type 0 where
  chunk_in : Text → Bool → Bool → Happening
  tick : Bool → Happening
  input_closed : Bool → Happening

-- The macro `flush!`.
unfoldable pub flush : Bool → Coalescer → Coalescer
unfolding record_out
flush taken c = if is_empty c.buf then c else record {
  buf = [];
  frames = (if taken then c.frames ++ c.buf ∷ [] else c.frames);
  stats = record_out c.stats (length c.buf);
  returned = (if taken then c.returned else true);
}

-- `stats.record_in(&chunk); buf.extend_from_slice(&chunk)`
unfoldable pub take_in : Text → Coalescer → Coalescer
unfolding record_in
take_in chunk c = record c { stats = record_in c.stats chunk; buf = c.buf ++ chunk }

-- One pass of the loop. A tick fires only with data pending; without any, a late chunk is shipped
-- at once. At the end of the input, what is left is shipped.
unfoldable pub pass : ℕ → Happening → Coalescer → Coalescer
unfolding flush take_in
pass max_frame (chunk_in chunk late taken) c =
    let full = leb max_frame (length (c.buf ++ chunk)) in
    if full || (is_empty c.buf && late) then flush taken (take_in chunk c) else take_in chunk c
pass max_frame (tick taken) c = if is_empty c.buf then c else flush taken c
pass max_frame (input_closed taken) c = record (flush taken c) { returned = true }

unfoldable pub coalesce : ℕ → List Happening → Coalescer → Coalescer
unfolding pass
coalesce max_frame [] c = c
coalesce max_frame (h ∷ hs) c = elim c.returned [
  | true ↦ c
  | false ↦ coalesce max_frame hs (pass max_frame h c)
]
