-- ===== src/Frontend/Servers/Masters.antt =====
-- The list of servers that master/master.cc sends, in the table of frontend/admin_console.h.
use cis505_penn_cloud.Prelude.{
  ℕ, zero, suc, ◌+◌, ◌<◌, ◌≤◌, Option, some, ◌≡◌, refl, sym, ap, ◌∙◌, Bool, true, false, List, [],
  ◌∷◌, ◌++◌, arith, All, All-append, if◌then◌else◌, length, take, length-append, append_assoc,
  append-nil,
}
use cis505_penn_cloud.Prelude.Int.{ℤ, pos}
use cis505_penn_cloud.Prelude.Ordered.{int_ordered}
use cis505_penn_cloud.Prelude.Text.{Bytes, has}
use cis505_penn_cloud.Prelude.Decimal.{print_int}
use cis505_penn_cloud.StdMap.{StdMap, lookup, insert, lookup-insert_self, lookup-insert_ne}
use cis505_penn_cloud.Kv.Outcome.{ok}
use cis505_penn_cloud.Master.Ring.{Server, Pair}
use cis505_penn_cloud.Master.Handler.{list_servers, server_address, is_empty}
use cis505_penn_cloud.Frontend.Text.{c_str}
use cis505_penn_cloud.Frontend.Lines.{c_str-plain}
use cis505_penn_cloud.Frontend.Servers.{AdminServer, Servers, parse_backend_servers}
use cis505_penn_cloud.Frontend.Servers.Listed.{
  Entry, entry_text, entries_text, entry_flat, IsEntry, entered, entered_all, parse_listed-entries,
}

abbrev pub entry_of : ℕ → Server → Entry
entry_of letter server = record { letter = letter; ip = server.ip; port = server.port }

-- A pair's primary, and its secondary where it has one.
abbrev pub pair_entries : Pair → List Entry
pair_entries pair =
    entry_of b'P' pair.primary
    ∷ (if is_empty pair.secondary.ip then [] else entry_of b'S' pair.secondary ∷ [])

abbrev pub entries_of : StdMap ℤ Pair → List Entry
entries_of [] = []
entries_of ((_, pair) ∷ servers) = pair_entries pair ++ entries_of servers

-- No address holds a colon or a comma.
abbrev pub IsAddressed : Bytes → Type 0
IsAddressed ip = (has b':' ip ≡ false) × (has b',' ip ≡ false)

abbrev pub IsListed : StdMap ℤ Pair → Type 0
IsListed [] = Unit
IsListed ((_, pair) ∷ servers) =
    IsAddressed pair.primary.ip × IsAddressed pair.secondary.ip × IsListed servers

server_text :
    (letter : ℕ) (server : Server) (rest : Bytes)
    → letter ∷ (server_address server ++ b',' ∷ rest) ≡ entry_text (entry_of letter server) ++ rest
server_text letter server rest =
    ap (λ s. letter ∷ s) (append_assoc server.ip (b':' ∷ print_int server.port) (b',' ∷ rest))
    ∙ sym (entry_flat (entry_of letter server) rest)

entries_text-append :
    (es fs : List Entry) → entries_text (es ++ fs) ≡ entries_text es ++ entries_text fs
entries_text-append [] fs = refl
entries_text-append (e ∷ es) fs =
    ap (λ l. entry_text e ++ l) (entries_text-append es fs)
    ∙ sym (append_assoc (entry_text e) (entries_text es) (entries_text fs))

-- The entry of a secondary, if there is one.
second_text :
    (none_ : Bool) (server : Server) (rest : Bytes)
    → (if none_ then [] else b'S' ∷ server_address server ++ b',' ∷ []) ++ rest
      ≡ entries_text (if none_ then [] else entry_of b'S' server ∷ []) ++ rest
second_text true server rest = refl
second_text false server rest =
    append_assoc (b'S' ∷ server_address server) (b',' ∷ []) rest
    ∙ server_text b'S' server rest
    ∙ ap (λ l. l ++ rest) (sym (append-nil (entry_text (entry_of b'S' server))))

list_servers-entries : (m : StdMap ℤ Pair) → list_servers m ≡ entries_text (entries_of m)
unfolding list_servers
list_servers-entries [] = refl
list_servers-entries ((id, pair) ∷ m) =
    let none_ = is_empty pair.secondary.ip in
    let second : List Entry = if none_ then [] else entry_of b'S' pair.secondary ∷ [] in
    server_text b'P' pair.primary _
    ∙ ap (λ l. entry_text (entry_of b'P' pair.primary) ++ l)
        (second_text none_ pair.secondary (list_servers m)
          ∙ ap (λ l. entries_text second ++ l) (list_servers-entries m)
          ∙ sym (entries_text-append second (entries_of m)))

second_IsEntry :
    (none_ : Bool) (server : Server)
    → IsAddressed server.ip
    → All IsEntry (if none_ then [] else entry_of b'S' server ∷ [])
unfolding has
second_IsEntry true server h = tt
second_IsEntry false server h = (h, tt)

entries_of-IsEntry : (m : StdMap ℤ Pair) → IsListed m → All IsEntry (entries_of m)
unfolding has
entries_of-IsEntry [] h = tt
entries_of-IsEntry ((id, pair) ∷ m) h = (
  h.0,
  All-append IsEntry _ (entries_of m)
      (second_IsEntry (is_empty pair.secondary.ip) pair.secondary h.1) (entries_of-IsEntry m h.2),
)

length-entries_text : (es : List Entry) → length es ≤ length (entries_text es)
length-entries_text [] = omega arith
length-entries_text (e ∷ es) =
    omega (arith, length-append {0} (entry_text e) (entries_text es), length-entries_text es)

parse-list_servers :
    (m : StdMap ℤ Pair) (servers : Servers)
    → IsListed m
    → parse_backend_servers (list_servers m) servers ≡ ok (entered_all 1 (entries_of m) servers)
unfolding parse_backend_servers has
parse-list_servers m servers h =
    parse_listed-entries (suc (length (list_servers m))) 1 [] [] (entries_of m) (list_servers m) 0 0
      servers (list_servers-entries m) refl refl refl (entries_of-IsEntry m h)
      (omega (arith, length-entries_text (entries_of m), ap length (list_servers-entries m)))

-- The entry at a position of the list, and the old row behind its end.
abbrev pub row : ℕ → List Entry → Option AdminServer → Option AdminServer
row k [] old = old
row zero (e ∷ es) old = some (entered e)
row (suc k) (e ∷ es) old = row k es old

insert_before :
    (id j : ℕ) (server : AdminServer) (servers : Servers)
    → id < j
    → lookup (pos j) (insert (pos id) server servers) ≡ lookup (pos j) servers
insert_before id j server servers below =
    lookup-insert_ne (pos id) (pos j) server servers (λ eq. ground (arith, below, eq))

entered_all-before :
    (id j : ℕ) (es : List Entry) (servers : Servers)
    → j < id
    → lookup (pos j) (entered_all id es servers) ≡ lookup (pos j) servers
entered_all-before id j [] servers below = refl
entered_all-before id j (e ∷ es) servers below =
    entered_all-before (suc id) j es (insert (pos id) (entered e) servers) (omega (arith, below))
    ∙ lookup-insert_ne (pos id) (pos j) (entered e) servers (λ eq. ground (arith, below, eq))

entered_all-row :
    (id k j : ℕ) (es : List Entry) (servers : Servers)
    → j ≡ id + k
    → lookup (pos j) (entered_all id es servers) ≡ row k es (lookup (pos j) servers)
entered_all-row id k j [] servers at = refl
entered_all-row id zero j (e ∷ es) servers at =
    let first : j ≡ id = omega (arith, at) in
    entered_all-before (suc id) j es (insert (pos id) (entered e) servers) (omega (arith, first))
    ∙ ap (λ i. lookup (pos i) (insert (pos id) (entered e) servers)) first
    ∙ lookup-insert_self (pos id) (entered e) servers
entered_all-row id (suc k) j (e ∷ es) servers at =
    entered_all-row (suc id) k j es (insert (pos id) (entered e) servers) (omega (arith, at))
    ∙ ap (row k es) (insert_before id j (entered e) servers (omega (arith, at)))

take_short : (n : ℕ) (s : Bytes) → length s ≤ n → take n s ≡ s
take_short zero [] short = refl
take_short (suc n) [] short = refl
take_short zero (c ∷ s) short = absurd (omega (arith, short))
take_short (suc n) (c ∷ s) short = ap (λ t. c ∷ t) (take_short n s (omega (arith, short)))

-- The console's table of the storage nodes behind the master's list, from the rows it had: the rows
-- from 1 on are every primary, and every secondary that there is behind its primary, in the order of
-- the master's table, with its address, its port and its role, and not yet found running. The rows
-- behind the end of the list stay as they were, also where they are of nodes that are gone. No address
-- holds a colon or a comma, and the list has no zero byte and fits into the buffer of 1023 bytes.
pub parse_backend_servers-list_servers :
    (m : StdMap ℤ Pair) (servers : Servers) (k : ℕ)
    → IsListed m
    → has 0 (list_servers m) ≡ false
    → length (list_servers m) ≤ 1023
    → (table : Servers) × (parse_backend_servers (c_str (take 1023 (list_servers m))) servers
        ≡ ok table)
      × (lookup (pos (1 + k)) table ≡ row k (entries_of m) (lookup (pos (1 + k)) servers))
parse_backend_servers-list_servers m servers k h plain short = (
  entered_all 1 (entries_of m) servers,
  ap (λ s. parse_backend_servers (c_str s) servers) (take_short 1023 (list_servers m) short)
      ∙ ap (λ s. parse_backend_servers s servers) (c_str-plain (list_servers m) plain)
      ∙ parse-list_servers m servers h,
  entered_all-row 1 k (1 + k) (entries_of m) servers refl,
)
