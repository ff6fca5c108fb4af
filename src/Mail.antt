-- ===== src/Mail.antt =====
-- The mailboxes of c_com/c_com.c: how a message from another brick arrives, and the byte codes that open,
-- test, read and close a mailbox, as functions of the mailbox and of the values of their operands.
pub mod Reading
pub mod Message
use lms2012_compat.Prelude.{
  ℕ, zero, suc, ◌+◌, ◌*◌, ◌/◌, ◌%◌, ◌^◌, Bool, true, false, not, ◌&&◌, ◌==◌, ltb, leb,
  if◌then◌else◌, List, [], ◌∷◌, Option, none, some, length, get_or, set,
}
use lms2012_compat.Words.{Width, size}
use lms2012_compat.Vm.{DspStat, nobreak, failbreak, busybreak, load_bytes}

-- The bytes of `Content`, which is an array of words
abbrev pub content_bytes : ℕ
content_bytes = (250 / 4 + 1) * 4

-- `Name` has its bytes before the zero; `is_open` is `Status == OK`.
pub record MailBox : Type 0 where
  pub box_name : List ℕ
  pub is_open : Bool
  pub box_type : ℕ
  pub data_size : ℕ
  pub read_cnt : ℕ
  pub write_cnt : ℕ
  pub content : ℕ → ℕ

-- `strcmp(a, b) == 0`
abbrev pub same_name : List ℕ → List ℕ → Bool
same_name [] [] = true
same_name [] (c ∷ cs) = false
same_name (b ∷ bs) [] = false
same_name (b ∷ bs) (c ∷ cs) = b == c && same_name bs cs

-- The first mailbox with the name
unfoldable pub c_com_find_mailbox : List ℕ → List MailBox → Option ℕ
c_com_find_mailbox name [] = none
c_com_find_mailbox name (b ∷ bs) =
    let rest = c_com_find_mailbox name bs in
    if same_name name b.box_name then some 0 else elim rest [ none ↦ none | some i ↦ some (suc i) ]

-- What the command WRITEMAILBOX does to the mailbox that it found. A payload larger than the content is
-- copied past its end.
unfoldable pub receive : List ℕ → MailBox → Option MailBox
receive payload b =
    if leb (length payload) content_bytes
    then some (record b {
      content = λ i. if ltb i (length payload) then get_or payload i 0 else b.content i;
      data_size = length payload % 2 ^ 16;
      write_cnt = (b.write_cnt + 1) % 2 ^ 16;
    })
    else none

abbrev pub update_box : ℕ → (MailBox → Option MailBox) → List MailBox → Option (List MailBox)
update_box i f [] = some []
update_box zero f (b ∷ bs) = elim (f b) [ none ↦ none | some c ↦ some (c ∷ bs) ]
update_box (suc i) f (b ∷ bs) = elim (update_box i f bs) [ none ↦ none | some cs ↦ some (b ∷ cs) ]

-- A message for a name that no mailbox has is dropped.
unfoldable pub write_mailbox : List ℕ → List ℕ → List MailBox → Option (List MailBox)
unfolding c_com_find_mailbox receive
write_mailbox name payload bs = elim (c_com_find_mailbox name bs) [
  | none ↦ some bs
  | some i ↦ update_box i (receive payload) bs
]

-- The name is cut to 49 bytes; an open mailbox is refused.
unfoldable pub c_com_open_mail_box : List ℕ → ℕ → MailBox → DspStat × MailBox
c_com_open_mail_box name type b = if b.is_open then (failbreak, b) else (
  nobreak,
  record b {
    box_name = cut 49 name;
    content = λ i. if ltb i 250 then 0 else b.content i;
    box_type = type;
    is_open = true;
    read_cnt = 0;
    write_cnt = 0;
  },
)
  where
    cut : ℕ → List ℕ → List ℕ
    cut zero bs = []
    cut (suc n) [] = []
    cut (suc n) (c ∷ bs) = c ∷ cut n bs

-- `Busy`: there is no new message.
unfoldable pub c_com_test_mail_box : MailBox → Bool
c_com_test_mail_box b = b.write_cnt == b.read_cnt

-- The size as the pattern of a DATA8
unfoldable pub c_com_mail_box_size : MailBox → ℕ
c_com_mail_box_size b = b.data_size % 256

-- BUSYBREAK executes the byte code again.
unfoldable pub c_com_ready_mail_box : MailBox → DspStat
c_com_ready_mail_box b = if b.write_cnt == b.read_cnt then busybreak else nobreak

unfoldable pub c_com_close_mail_box : MailBox → MailBox
c_com_close_mail_box b = record b { is_open = false }
