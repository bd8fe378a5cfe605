-- ===== src/Frontend/Servers/Listed.antt =====
-- The master's list of servers, as frontend/admin_console.h takes it apart.
use cis505_penn_cloud.Prelude.{
  ℕ, zero, suc, ◌+◌, ◌-◌, ◌<◌, ◌≡◌, refl, sym, ap, ◌∙◌, false, none, some, List, [], ◌∷◌, ◌++◌,
  arith, All, length, take, drop, length-append, append_assoc, drop-length-append,
  take-length-append,
}
use cis505_penn_cloud.Prelude.Int.{ℤ, pos}
use cis505_penn_cloud.Prelude.Ordered.{bytes_ordered, int_ordered}
use cis505_penn_cloud.Prelude.Positions.{
  index_from, find_first_of, index_from-append, index_from-none, index_from_before,
  index_from_other,
}
use cis505_penn_cloud.Prelude.Text.{Bytes, has, has-append}
use cis505_penn_cloud.Prelude.Decimal.{print_int, has-print_int, atoi-print_int}
use cis505_penn_cloud.StdMap.{insert}
use cis505_penn_cloud.Kv.Outcome.{ok}
use cis505_penn_cloud.Frontend.Servers.{
  AdminServer, Servers, part, type_of, listed_server, parse_listed,
}

-- A server as the master lists it: a letter, an address, a port.
pub record Entry : Type 0 where
  pub letter : ℕ
  pub ip : Bytes
  pub port : ℤ

abbrev pub entry_text : Entry → Bytes
entry_text e = e.letter ∷ (e.ip ++ b':' ∷ (print_int e.port ++ b',' ∷ []))

abbrev pub entries_text : List Entry → Bytes
entries_text [] = []
entries_text (e ∷ es) = entry_text e ++ entries_text es

abbrev pub IsEntry : Entry → Type 0
IsEntry e = (has b':' (e.letter ∷ e.ip) ≡ false) × (has b',' (e.letter ∷ e.ip) ≡ false)

abbrev pub entered : Entry → AdminServer
entered e = record {
  ip = e.ip;
  port = e.port;
  running = false;
  backend_type = type_of (e.letter ∷ []);
}

-- The table of the entries, numbered from an id on.
abbrev pub entered_all : ℕ → List Entry → Servers → Servers
entered_all id [] servers = servers
entered_all id (e ∷ es) servers = entered_all (suc id) es (insert (pos id) (entered e) servers)

pub entry_flat :
    (e : Entry) (rest : Bytes)
    → entry_text e ++ rest ≡ e.letter ∷ (e.ip ++ b':' ∷ (print_int e.port ++ b',' ∷ rest))
entry_flat e rest =
    ap (λ s. e.letter ∷ s) (append_assoc e.ip (b':' ∷ (print_int e.port ++ b',' ∷ [])) rest)
    ∙ ap (λ s. e.letter ∷ (e.ip ++ b':' ∷ s)) (append_assoc (print_int e.port) (b',' ∷ []) rest)

-- A part between two known ones.
part-append :
    (a b c s : Bytes) (start stop : ℕ)
    → s ≡ a ++ (b ++ c)
    → start ≡ length a
    → stop ≡ length a + length b
    → part start (some stop) s ≡ ok b
part-append a b c s start stop e n k =
    let len : length s ≡ length a + length (b ++ c) = ap length e ∙ length-append a (b ++ c) in
    let behind : drop start s ≡ b ++ c =
      ap (λ i. drop i s) n ∙ ap (drop (length a)) e ∙ drop-length-append a (b ++ c) in
    let front : take (stop - start) (b ++ c) ≡ b =
      ap (λ i. take i (b ++ c)) (omega (arith, n, k)) ∙ take-length-append b c in
    ground (arith, len, behind, front, n, k)

module _ (pre : Bytes) (e : Entry) (rest : Bytes) (plain : IsEntry e) where
  abbrev listed : Bytes
  listed = pre ++ (entry_text e ++ rest)

  abbrev colon_at : ℕ
  colon_at = length pre + (length e.ip + 1)

  abbrev comma_at : ℕ
  comma_at = colon_at + 1 + length (print_int e.port)

  flat : listed ≡ pre ++ e.letter ∷ (e.ip ++ b':' ∷ (print_int e.port ++ b',' ∷ rest))
  flat = ap (λ s. pre ++ s) (entry_flat e rest)

  listed_server-entry : listed_server (length pre) colon_at (some comma_at) listed ≡ ok (entered e)
  unfolding listed_server
  listed_server-entry =
      let port_text = print_int e.port in
      let head = pre ++ e.letter ∷ [] in
      let front = pre ++ e.letter ∷ (e.ip ++ b':' ∷ []) in
      let ip : part (length pre + 1) (some colon_at) listed ≡ ok e.ip =
        part-append head e.ip (b':' ∷ (port_text ++ b',' ∷ rest)) listed (length pre + 1) colon_at
          (flat ∙ sym (append_assoc pre (e.letter ∷ []) _))
          (omega (arith, length-append {0} pre (e.letter ∷ [])))
          (omega (arith, length-append {0} pre (e.letter ∷ []))) in
      let port : part (colon_at + 1) (some comma_at) listed ≡ ok port_text =
        part-append front port_text (b',' ∷ rest) listed (colon_at + 1) comma_at
          (flat
            ∙ ap (λ s. pre ++ e.letter ∷ s)
                (sym (append_assoc e.ip (b':' ∷ []) (port_text ++ b',' ∷ rest)))
            ∙ sym (append_assoc pre (e.letter ∷ (e.ip ++ b':' ∷ [])) (port_text ++ b',' ∷ rest)))
          (omega (
            arith,
            length-append {0} pre (e.letter ∷ (e.ip ++ b':' ∷ [])),
            length-append {0} e.ip (b':' ∷ []),
          ))
          (omega (
            arith,
            length-append {0} pre (e.letter ∷ (e.ip ++ b':' ∷ [])),
            length-append {0} e.ip (b':' ∷ []),
          )) in
      let letter : part (length pre) (some (length pre + 1)) listed ≡ ok (e.letter ∷ []) =
        part-append pre (e.letter ∷ []) _ listed (length pre) (length pre + 1) flat refl
          (omega arith) in
      rw (ip, port, letter, atoi-print_int e.port) refl

-- The search for a byte that the passed part of a text does not hold from the start on.
index_from_passed :
    (n d : ℕ) (p1 p2 r : Bytes)
    → length p1 ≡ n
    → has d p2 ≡ false
    → index_from 0 n d ((p1 ++ p2) ++ r) ≡ index_from (length (p1 ++ p2)) n d r
index_from_passed n d p1 p2 r e h =
    ap (index_from 0 n d) (append_assoc p1 p2 r)
    ∙ index_from_before 0 n d p1 (p2 ++ r) (omega (arith, e))
    ∙ index_from_other (0 + length p1) n d p2 r h
    ∙ ap (λ k. index_from k n d r) (omega (arith, length-append {0} p1 p2))

module _ (p1 p2 : Bytes) (e : Entry) (rest : Bytes) (plain : IsEntry e)
    (h : has b':' p2 ≡ false) where
  colon_found :
      find_first_of b':' (length p1) (listed (p1 ++ p2) e rest plain)
      ≡ some (colon_at (p1 ++ p2) e rest plain)
  colon_found =
      let more = print_int e.port ++ b',' ∷ rest in
      ap (index_from 0 (length p1) b':') (flat (p1 ++ p2) e rest plain)
      ∙ index_from_passed (length p1) b':' p1 p2 (e.letter ∷ (e.ip ++ b':' ∷ more)) refl h
      ∙ index_from-append (length (p1 ++ p2)) (length p1) b':' (e.letter ∷ e.ip) more plain.0
          (omega (arith, length-append {0} p1 p2))
      ∙ ap (λ n. some n) (omega arith)

  comma_found :
      find_first_of b',' (length (p1 ++ p2)) (listed (p1 ++ p2) e rest plain)
      ≡ some (comma_at (p1 ++ p2) e rest plain)
  unfolding has
  comma_found =
      let pre = p1 ++ p2 in
      let body = e.letter ∷ (e.ip ++ b':' ∷ print_int e.port) in
      let no_comma : has b',' body ≡ false =
        has-append b',' (e.letter ∷ e.ip) (b':' ∷ print_int e.port)
        ∙ rw plain.1 (has-print_int b',' e.port refl (ground arith)) in
      ap (index_from 0 (length pre) b',') (
        flat pre e rest plain
        ∙ ap (λ s. pre ++ e.letter ∷ s)
            (sym (append_assoc e.ip (b':' ∷ print_int e.port) (b',' ∷ rest))))
      ∙ index_from_before 0 (length pre) b',' pre (body ++ b',' ∷ rest) (omega arith)
      ∙ index_from-append (0 + length pre) (length pre) b',' body rest no_comma (omega arith)
      ∙ ap (λ n. some n) (omega (arith, length-append {0} e.ip (b':' ∷ print_int e.port)))

pub parse_listed-entries :
    (fuel id : ℕ) (p1 p2 : Bytes) (es : List Entry) (s : Bytes) (found1 c : ℕ) (servers : Servers)
    → s ≡ (p1 ++ p2) ++ entries_text es
    → found1 ≡ length (p1 ++ p2)
    → c ≡ length p1
    → has b':' p2 ≡ false
    → All IsEntry es
    → length es < fuel
    → parse_listed fuel id found1 (find_first_of b':' c s) (find_first_of b',' found1 s) s servers
      ≡ ok (entered_all id es servers)
unfolding parse_listed
parse_listed-entries zero id p1 p2 es s found1 c servers e n m h plain f = absurd (omega (arith, f))
parse_listed-entries (suc fuel) id p1 p2 [] s found1 c servers e n m h plain f =
    let nothing_ : find_first_of b':' c s ≡ none =
      ap (index_from 0 c b':') e
      ∙ index_from_passed c b':' p1 p2 [] (sym m) h
      ∙ index_from-none (length (p1 ++ p2)) c b':' [] (unfold has in refl) in
    rw nothing_ refl
parse_listed-entries (suc fuel) id p1 p2 (x ∷ es) s found1 c servers e n m h plain f =
    let pre = p1 ++ p2 in
    let rest = entries_text es in
    let colon = colon_at pre x rest plain.0 in
    let comma = comma_at pre x rest plain.0 in
    let found2 : find_first_of b':' c s ≡ some colon =
      rw (e, m) (colon_found p1 p2 x rest plain.0 h) in
    let found3 : find_first_of b',' found1 s ≡ some comma =
      rw (e, n) (comma_found p1 p2 x rest plain.0 h) in
    let server : listed_server found1 colon (some comma) s ≡ ok (entered x) =
      rw (e, n) (listed_server-entry pre x rest plain.0) in
    let port_text = print_int x.port in
    let next1 = pre ++ x.letter ∷ (x.ip ++ b':' ∷ []) in
    let next2 = port_text ++ b',' ∷ [] in
    let joined_ : next1 ++ next2 ≡ pre ++ entry_text x =
      append_assoc pre (x.letter ∷ (x.ip ++ b':' ∷ [])) next2
      ∙ ap (λ l. pre ++ x.letter ∷ l) (append_assoc x.ip (b':' ∷ []) next2) in
    let length1 : length next1 ≡ colon + 1 = omega (
      arith,
      length-append {0} pre (x.letter ∷ (x.ip ++ b':' ∷ [])),
      length-append {0} x.ip (b':' ∷ []),
    ) in
    let whole : s ≡ (next1 ++ next2) ++ rest =
      e ∙ sym (append_assoc pre (entry_text x) rest) ∙ ap (λ l. l ++ rest) (sym joined_) in
    let no_colon : has b':' next2 ≡ false =
      unfold has in
      has-append b':' port_text (b',' ∷ [])
      ∙ rw (has-print_int b':' x.port refl (ground arith)) refl in
    rw (found2, found3, server)
      (parse_listed-entries fuel (suc id) next1 next2 es s (comma + 1) (colon + 1)
        (insert (pos id) (entered x) servers) whole
        (omega
          (arith, length1, length-append {0} next1 next2, length-append {0} port_text (b',' ∷ [])))
        (sym length1) no_colon plain.1 (omega (arith, f)))
