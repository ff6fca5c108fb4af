-- ===== src/Tests/Messages.antt =====
-- A message of three bytes.
use lms2012_compat.Prelude.{ℕ, ◌≡◌, ◌==◌, if◌then◌else◌, refl, true, false, [], ◌∷◌, some, arith}
use lms2012_compat.Vm.{nobreak, busybreak}
use lms2012_compat.Mail.{MailBox, receive, c_com_test_mail_box, c_com_ready_mail_box}
use lms2012_compat.Mail.Reading.{MailTypes, Place, text, c_com_read_mail_box}
use lms2012_compat.Mail.Message.{numbers, receive-read}

abbrev box : MailBox
box = record {
  box_name = 65 ∷ [];
  is_open = true;
  box_type = 0;
  data_size = 0;
  read_cnt = 7;
  write_cnt = 7;
  content = λ i. 0;
}

abbrev types : MailTypes
types = record { data_8 = 0; data_16 = 1; data_32 = 2; data_f = 3; data_s = 4; data_a = 5 }

abbrev variables : ℕ → Place
variables cnt = record { is_handle = false; is_resized = false }

receive-read_example :
    (b : MailBox) × (receive (10 ∷ 20 ∷ 30 ∷ []) box ≡ some b)
    × (c_com_test_mail_box b ≡ false)
    × (c_com_ready_mail_box b ≡ nobreak)
    × ((c : MailBox) × (c_com_read_mail_box types variables 3 b
          ≡ some (numbers (10 ∷ 20 ∷ 30 ∷ []), c))
        × (c_com_test_mail_box c ≡ true)
        × (c_com_ready_mail_box c ≡ busybreak))
receive-read_example =
    receive-read types variables (10 ∷ 20 ∷ 30 ∷ []) box refl refl refl (omega arith) (omega arith)
      (omega arith, (omega arith, (omega arith, tt)))

-- A mailbox of the type DATA_S with a string of two characters
abbrev text_box : MailBox
text_box = record box {
  box_type = 4;
  content = λ i. if i == 0 then 72 else if i == 1 then 105 else 0;
}

text_read :
    c_com_read_mail_box types variables 1 text_box ≡ some (text (72 ∷ 105 ∷ []) ∷ [], text_box)
unfolding c_com_read_mail_box
text_read = refl
