-- ===== src/Frontend/Mails/Listing.antt =====
-- The inbox of frontend/response.cc, on a storage node's reply to a `getlist`.
use cis505_penn_cloud.Prelude.{
  ℕ, zero, suc, ◌+◌, ◌≤◌, ◌<◌, ◌≡◌, refl, ap, ◌∙◌, Bool, true, false, List, [], ◌∷◌, ◌++◌, arith,
  All, if◌then◌else◌, length, length-append, append_assoc,
}
use cis505_penn_cloud.Prelude.Text.{
  Bytes, codes, has, has-append, fields, fields-append, fields_rest, starts_with,
}
use cis505_penn_cloud.Prelude.Decimal.{print_nat}
use cis505_penn_cloud.Kv.Outcome.{ok, ◌>>=◌}
use cis505_penn_cloud.Frontend.Lines.{c_str-plain}
use cis505_penn_cloud.Frontend.Text.{c_str, split}
use cis505_penn_cloud.Frontend.Mails.{mail_row, mail_rows, without_comma}
use cis505_penn_cloud.Frontend.Mails.Reading.{
  IsContent, content_lines-lines, first_address, substr-append,
}

-- A stored mail under its key.
pub record Item : Type 0 where
  pub key : Bytes
  pub from : Bytes
  pub to : Bytes
  pub date : Bytes
  pub title : Bytes
  pub content : List Bytes

abbrev pub item_line : Item → Bytes
item_line m = (codes "##" ++ m.key) ++ b',' ∷ (codes "From: <" ++ (m.from ++ codes ">"))

-- The lines of a mail in the reply; every mail but the first stands behind the comma that ends the one
-- before it.
abbrev pub item_lines : Bool → Item → List Bytes
item_lines first m =
    (if first then item_line m else b',' ∷ item_line m)
      ∷ (codes "To: <" ++ (m.to ++ codes ">"))
      ∷ (codes "Date: " ++ m.date)
      ∷ (codes "Subject: " ++ m.title)
      ∷ m.content
    ++ codes "." ∷ [] ∷ []

abbrev pub listing : Bool → List Item → List Bytes
listing first [] = []
listing first (m ∷ ms) = item_lines first m ++ listing false ms

-- The row of a mail on the page.
abbrev pub item_row : ℕ → Item → Bytes
item_row count m =
    codes "<tr>\n<th scope=\" row \"><a href=\"viewemail?key="
    ++ m.key
    ++ codes "\">"
    ++ print_nat count
    ++ codes "</a></th>\n<td>"
    ++ m.from
    ++ codes "</td>\n<td>"
    ++ m.title
    ++ codes "</td>\n<td>"
    ++ m.date
    ++ codes "</td>\n</tr>\n"

abbrev pub item_rows : ℕ → List Item → Bytes
item_rows count [] = []
item_rows count (m ∷ ms) = item_row count m ++ item_rows (count + 1) ms

-- Neither the key nor the sender holds a comma or a zero byte, and no line of the content is a dot.
abbrev pub IsItem : Item → Type 0
IsItem m =
    (has b',' m.key ≡ false)
    × (has b',' m.from ≡ false)
    × (has 0 m.key ≡ false)
    × (has 0 m.from ≡ false)
    × IsContent m.content

abbrev sender_of : Item → Bytes
sender_of m = codes "From: <" ++ (m.from ++ codes ">")

has-sender :
    (d : ℕ) (m : Item)
    → has d (codes "From: <>") ≡ false
    → has d m.from ≡ false
    → has d (sender_of m) ≡ false
unfolding has
has-sender d m h k = ground (arith, has-append d m.from (codes ">"))

item_tokens :
    (m : Item)
    → IsItem m
    → split (c_str (item_line m)) b',' ≡ (codes "##" ++ m.key) ∷ sender_of m ∷ []
unfolding split has
item_tokens m h =
    let plain : has 0 (item_line m) ≡ false =
      has-append 0 (codes "##" ++ m.key) (b',' ∷ sender_of m) ∙ rw h.2 (has-sender 0 m refl h.3) in
    let pieces : fields b',' (item_line m) ≡ ((codes "##" ++ m.key) ∷ [], sender_of m) =
      fields-append b',' (codes "##" ++ m.key) (sender_of m) h.0
      ∙ ap (λ f. ((codes "##" ++ m.key) ∷ f.0, f.1))
          (fields_rest b',' (sender_of m) (has-sender b',' m refl h.1)) in
    rw (c_str-plain (item_line m) plain, pieces) refl

mail_row-item :
    (count : ℕ) (m : Item) (rest : List Bytes)
    → IsItem m
    → mail_row count (item_line m) (
        (codes "To: <" ++ (m.to ++ codes ">"))
          ∷ (codes "Date: " ++ m.date)
          ∷ (codes "Subject: " ++ m.title)
          ∷ m.content
        ++ codes "." ∷ [] ∷ rest)
      ≡ ok (item_row count m, rest)
unfolding mail_row
mail_row-item count m rest h =
    rw
      (
        item_tokens m h,
        first_address m.from,
        content_lines-lines m.content rest h.4,
        substr-append (codes "##") m.key,
        substr-append (codes "Subject: ") m.title,
        substr-append (codes "Date: ") m.date,
      )
      refl

without_comma-item :
    (first : Bool) (m : Item)
    → without_comma (if first then item_line m else b',' ∷ item_line m) ≡ ok (item_line m)
without_comma-item true m = refl
without_comma-item false m = refl

mail_rows_item :
    (fuel count : ℕ) (first : Bool) (m : Item) (rest : List Bytes)
    → IsItem m
    → mail_rows (suc fuel) count (item_lines first m ++ rest)
      ≡ (mail_rows fuel (count + 1) rest >>= λ rows. ok (item_row (count + 1) m ++ rows))
unfolding mail_rows starts_with
mail_rows_item fuel count first m rest h =
    rw
      (
        without_comma-item first m,
        append_assoc m.content (codes "." ∷ [] ∷ []) rest,
        mail_row-item (count + 1) m rest h,
      )
      refl

mail_rows-listing_from :
    (fuel count : ℕ) (first : Bool) (ms : List Item)
    → All IsItem ms
    → length ms < fuel
    → mail_rows fuel count (listing first ms) ≡ ok (item_rows (count + 1) ms)
unfolding mail_rows
mail_rows-listing_from zero count first ms h f = absurd (omega (arith, f))
mail_rows-listing_from (suc fuel) count first [] h f = refl
mail_rows-listing_from (suc fuel) count first (m ∷ ms) h f =
    mail_rows_item fuel count first m (listing false ms) h.0
    ∙ ap (λ o. o >>= λ rows. ok (item_row (count + 1) m ++ rows))
        (mail_rows-listing_from fuel (count + 1) false ms h.1 (omega (arith, f)))

length-listing : (first : Bool) (ms : List Item) → length ms ≤ length (listing first ms)
length-listing first [] = omega arith
length-listing first (m ∷ ms) =
    omega
      (arith, length-append {0} (item_lines first m) (listing false ms), length-listing false ms)

abbrev pub list_line : Bytes
list_line = codes "+OK list as follows: "

pub mail_rows-listing :
    (ms : List Item)
    → All IsItem ms
    → let rep = list_line ∷ listing true ms in
      mail_rows (length rep + 1) 0 rep ≡ ok (item_rows 1 ms)
unfolding mail_rows starts_with
mail_rows-listing ms h =
    let n : length (list_line ∷ listing true ms) + 1 ≡ suc (suc (length (listing true ms))) =
      omega arith in
    rw n (
      mail_rows-listing_from (suc (length (listing true ms))) 0 true ms h
        (omega (arith, length-listing true ms)))
