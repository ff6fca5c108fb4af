-- ===== src/Mail/Reading.antt =====
-- opMAILBOX_READ in c_com/c_com.c, `cComReadMailBox`: what the loop over the operands gives to each of them,
-- for every type of a mailbox. The numbers of the types are generated, and whether the memory of a string or
-- an array could be resized is an answer of c_memory.
use lms2012_compat.Prelude.{
  ℕ, zero, suc, ◌+◌, ◌*◌, ◌%◌, ◌^◌, Bool, not, ◌&&◌, ◌||◌, ◌==◌, ltb, leb, if◌then◌else◌, List, [],
  ◌∷◌, Option, none, some, take,
}
use lms2012_compat.Prelude.Options.{◌>>=◌}
use lms2012_compat.Vm.{load_bytes}
use lms2012_compat.Mail.{MailBox, content_bytes}

-- DATA_8, DATA_16, DATA_32, DATA_F, DATA_S and DATA_A
pub record MailTypes : Type 0 where
  pub data_8 : ℕ
  pub data_16 : ℕ
  pub data_32 : ℕ
  pub data_f : ℕ
  pub data_s : ℕ
  pub data_a : ℕ

-- What is written through an operand, or to the memory of its handle: a number as its pattern
pub data Given : Type 0 where
  number : ℕ → Given
  text array : List ℕ → Given
  nothing : Given

-- The operand of a round: is it a handle (`VMInstance.Handle >= 0`), and did `VmMemoryResize` return memory?
pub record Place : Type 0 where
  pub is_handle : Bool
  pub is_resized : Bool

-- `((T*)Content)[Cnt]` of `n` bytes; `none` is a read past the content.
unfoldable pub read_number : ℕ → ℕ → MailBox → Option (Given × MailBox)
unfolding load_bytes
read_number n cnt b =
    if leb ((cnt + 1) * n) content_bytes
    then some (number (load_bytes n b.content (cnt * n)), b)
    else none

-- The characters before the first zero byte
unfoldable pub text_from : ℕ → ℕ → (ℕ → ℕ) → Option (List ℕ)
text_from zero i content = none
text_from (suc n) i content =
    let rest = text_from n (i + 1) content >>= (λ cs. some ((content i % 256) ∷ cs)) in
    if content i % 256 == 0 then some [] else rest

-- `snprintf` writes 250 bytes at most, the zero byte included. A handle is resized for data of any size
-- above MIN_ARRAY_ELEMENTS, which is 0.
unfoldable pub read_text : Place → MailBox → Option (Given × MailBox)
unfolding text_from
read_text p b =
    if p.is_handle && ltb 0 b.data_size && not p.is_resized
    then some (nothing, b)
    else text_from content_bytes 0 b.content >>= (λ cs. some (text (take 249 cs), b))

unfoldable pub bytes_from : ℕ → ℕ → (ℕ → ℕ) → List ℕ
bytes_from zero i content = []
bytes_from (suc n) i content = (content i % 256) ∷ bytes_from n (i + 1) content

-- All the data from the byte `Cnt` on; there is none after that.
unfoldable pub read_array : Place → ℕ → MailBox → Option (Given × MailBox)
unfolding bytes_from
read_array p cnt b =
    if ltb 0 b.data_size && p.is_resized
    then (if leb (cnt + b.data_size) content_bytes
        then some (array (bytes_from b.data_size cnt b.content), record b { data_size = 0 })
        else none)
    else some (nothing, record b { data_size = 0 })

-- `switch (ComInstance.MailBox[No].Type)`; a type that is none of these takes no operand.
unfoldable pub read_round : MailTypes → Place → ℕ → MailBox → Option (Given × MailBox)
unfolding read_number read_text read_array
read_round t p cnt b =
    if b.box_type == t.data_8
    then read_number 1 cnt b
    else if b.box_type == t.data_16
    then read_number 2 cnt b
    else if b.box_type == t.data_32 || b.box_type == t.data_f
    then read_number 4 cnt b
    else if b.box_type == t.data_s
    then read_text p b
    else if b.box_type == t.data_a
    then read_array p cnt b
    else some (nothing, b)

-- `n` rounds from `cnt` on, each with its place
unfoldable pub read_rounds :
    MailTypes → (ℕ → Place) → ℕ → ℕ → MailBox → Option (List Given × MailBox)
unfolding read_round
read_rounds t places zero cnt b = some ([], b)
read_rounds t places (suc n) cnt b = do
  r ← read_round t (places cnt) cnt b
  q ← read_rounds t places n (cnt + 1) r.1
  some (r.0 ∷ q.0, q.1)

-- `for (Cnt = 0; Cnt < Values; Cnt++)`, where `Values` is a DATA8, given as its pattern
abbrev pub rounds_of : ℕ → ℕ
rounds_of values = if ltb values 128 then values else 0

abbrev pub count_read : MailBox → MailBox
count_read b =
    if b.write_cnt == b.read_cnt then b else record b { read_cnt = (b.read_cnt + 1) % 2 ^ 16 }

-- A mailbox that is not open gives nothing.
unfoldable pub c_com_read_mail_box :
    MailTypes → (ℕ → Place) → ℕ → MailBox → Option (List Given × MailBox)
unfolding read_rounds
c_com_read_mail_box t places values b =
    if b.is_open
    then read_rounds t places (rounds_of values) 0 b >>= (λ r. some (r.0, count_read r.1))
    else some ([], b)
