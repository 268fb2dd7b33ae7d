-- ===== src/Corpus/Times.antt =====
-- The times of packages/openterms-py/scripts/generate_corpus.py. A datetime is the microseconds since
-- datetime.min.
use openterms.Prelude.{ℕ, ◌+◌, ◌-◌, ◌*◌, ◌/◌, ◌%◌, String, [], ◌∷◌, leb, if◌then◌else◌}
use openterms.Prelude.Int.{ℤ, pos, negsuc}
use openterms.Python.{Result, ok, fail, overflow_error, join_text, char_text}

-- What the generator calls of datetime: strptime(text, "%Y-%m-%dT%H:%M:%S.%fZ"), the text that
-- strftime("%Y-%m-%dT%H:%M:%S.") gives, and int(delta.total_seconds() * 1000) of the microseconds of a
-- timedelta, which goes through a float.
pub record Datetimes : Type 0 where
  pub strptime : String → Result ℕ
  pub strftime : ℕ → String
  pub total_ms : ℤ → ℤ

-- 9999-12-31T23:59:59.999999
abbrev pub datetime_max : ℕ
datetime_max = 315537897599999999

-- when + dt.timedelta(milliseconds=offset_ms)
unfoldable pub shift : ℕ → ℤ → Result ℕ
shift when (pos ms) =
    if leb (when + ms * 1000) datetime_max then ok (when + ms * 1000) else fail overflow_error
shift when (negsuc ms) =
    if leb ((ms + 1) * 1000) when then ok (when - (ms + 1) * 1000) else fail overflow_error

abbrev pub digit_text : ℕ → String
digit_text d = char_text "0123456789" d

-- `to_iso_z`
unfoldable pub to_iso_z : Datetimes → ℕ → String
unfolding join_text char_text
to_iso_z dates when =
    let ms = when % 1000000 / 1000 in
    join_text (
      dates.strftime when
      ∷ digit_text (ms / 100)
      ∷ digit_text (ms / 10 % 10)
      ∷ digit_text (ms % 10)
      ∷ "Z"
      ∷ [])
