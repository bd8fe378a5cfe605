-- ===== src/Kv/Commands/Replay.antt =====
-- The log of kvstore/chunkserver.cc and its replay.
use cis505_penn_cloud.Prelude.{
  ℕ, ◌≡◌, refl, sym, ap, ◌∙◌, true, false, List, [], ◌∷◌, ◌++◌, map, arith, append_assoc,
  if◌then◌else◌,
}
use cis505_penn_cloud.Prelude.Int.{pos, negsuc}
use cis505_penn_cloud.Prelude.Ordered.{bytes_ordered}
use cis505_penn_cloud.Prelude.Text.{Bytes, codes, crlf, has, cut, fields, fields-append, has-append}
use cis505_penn_cloud.Kv.Outcome.{Outcome, ok, fault, timeout, ◌>>=◌, >>=-ext}
use cis505_penn_cloud.Kv.Store.{Store}
use cis505_penn_cloud.Kv.Cache
use cis505_penn_cloud.Kv.Ops.{is_empty}
use cis505_penn_cloud.Kv.Commands.{
  put, record_write, recorded, replay_line, replay_lines, replay_log,
}
use cis505_penn_cloud.Kv.Commands.Lines.{put_text, put-put_text}

-- A put that a client has asked for.
pub record Write : Type 0 where
  pub user : Bytes
  pub filename : Bytes
  pub value : Bytes

-- Names without the comma and the newline that separate them in the log, and a value without newline.
abbrev pub IsLoggable : Write → Type 0
IsLoggable w =
    (has b',' w.user ≡ false)
    × (has b',' w.filename ≡ false)
    × (has 10 w.user ≡ false)
    × (has 10 w.filename ≡ false)
    × (has 10 w.value ≡ false)

abbrev pub AreLoggable : List Write → Type 0
AreLoggable [] = Unit
AreLoggable (w ∷ ws) = IsLoggable w × AreLoggable ws

-- The line of a put, and its text up to the newline.
abbrev pub line_of : Write → Bytes
line_of w = put_text w.user w.filename (w.value ++ crlf)

abbrev stem : Write → Bytes
stem w = put_text w.user w.filename (w.value ++ 13 ∷ [])

abbrev pub log_text : List Write → Bytes
log_text [] = []
log_text (w ∷ ws) = line_of w ++ log_text ws

-- The puts one behind the other, on behalf of nobody.
abbrev pub stored : (ℕ → ℕ) → ℕ → List Write → Store → Outcome Store
stored float_ceil fuel [] s = ok s
stored float_ceil fuel (w ∷ ws) s =
    let s' =
      Cache.put float_ceil fuel w.user w.filename (w.value ++ crlf) (negsuc 0) true (pos 0) s in
    s' >>= stored float_ceil fuel ws

put_text-append : (u f v t : Bytes) → put_text u f v ++ t ≡ put_text u f (v ++ t)
put_text-append u f v t =
    ap (λ x. codes "put " ++ x)
      (append_assoc u (b',' ∷ (f ++ b',' ∷ v)) t
        ∙ ap (λ y. u ++ b',' ∷ y) (append_assoc f (b',' ∷ v) t))

stem-newline : (w : Write) → stem w ++ 10 ∷ [] ≡ line_of w
stem-newline w =
    put_text-append w.user w.filename (w.value ++ 13 ∷ []) (10 ∷ [])
    ∙ ap (put_text w.user w.filename) (append_assoc w.value (13 ∷ []) (10 ∷ []))

has-stem : (w : Write) → IsLoggable w → has 10 (stem w) ≡ false
unfolding has
has-stem w h = ground (
  arith,
  has-append 10 w.user (b',' ∷ (w.filename ++ b',' ∷ (w.value ++ 13 ∷ []))),
  has-append 10 w.filename (b',' ∷ (w.value ++ 13 ∷ [])),
  has-append 10 w.value (13 ∷ []),
)

fields-log_text : (ws : List Write) → AreLoggable ws → fields 10 (log_text ws) ≡ (map stem ws, [])
fields-log_text [] h = unfold fields in refl
fields-log_text (w ∷ ws) h =
    ap (λ l. fields 10 (l ++ log_text ws)) (sym (stem-newline w))
    ∙ ap (fields 10) (append_assoc (stem w) (10 ∷ []) (log_text ws))
    ∙ fields-append 10 (stem w) (log_text ws) (has-stem w h.0)
    ∙ ap (λ f. (stem w ∷ f.0, f.1)) (fields-log_text ws h.1)

recorded-internal : (line user : Bytes) (run : Outcome Store) → recorded false line user run ≡ run
unfolding record_write
recorded-internal line user (ok s) = refl
recorded-internal line user fault = refl
recorded-internal line user timeout = refl

module _ (float_ceil : ℕ → ℕ) (fuel : ℕ) where
  replay_line-stem :
      (w : Write) (s : Store)
      → IsLoggable w
      → replay_line float_ceil fuel (stem w) s
        ≡ Cache.put float_ceil fuel w.user w.filename (w.value ++ crlf) (negsuc 0) true (pos 0) s
  unfolding replay_line cut
  replay_line-stem w s h =
      ap (λ l. put float_ceil fuel l false (negsuc 0) (pos 0) s) (stem-newline w)
      ∙ put-put_text float_ceil fuel w.user w.filename (w.value ++ crlf) false (negsuc 0) (pos 0) s
          h.0 h.1
      ∙ recorded-internal (line_of w) w.user _

  replay_lines-stems :
      (ws : List Write) (s : Store)
      → AreLoggable ws
      → replay_lines float_ceil fuel (map stem ws) s ≡ stored float_ceil fuel ws s
  unfolding replay_lines
  replay_lines-stems [] s h = refl
  replay_lines-stems (w ∷ ws) s h =
      ap (λ o. o >>= replay_lines float_ceil fuel (map stem ws)) (replay_line-stem w s h.0)
      ∙ >>=-ext
          (Cache.put float_ceil fuel w.user w.filename (w.value ++ crlf) (negsuc 0) true (pos 0) s)
          (replay_lines float_ceil fuel (map stem ws)) (stored float_ceil fuel ws)
          λ t. replay_lines-stems ws t h.1

  -- The replay of a log of puts carries out exactly these puts, in their order, with the users, files
  -- and values that were logged, where no name holds a comma and nothing that is logged a newline.
  pub replay_log-stored :
      (ws : List Write) (s : Store)
      → AreLoggable ws
      → s.log ≡ log_text ws
      → replay_log float_ceil fuel s ≡ stored float_ceil fuel ws s
  unfolding replay_log
  replay_log-stored ws s h e =
      ap (λ f. replay_lines float_ceil fuel (if is_empty f.1 then f.0 else f.0 ++ f.1 ∷ []) s)
        (ap (fields 10) e ∙ fields-log_text ws h)
      ∙ replay_lines-stems ws s h
