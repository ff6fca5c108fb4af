-- ===== src/Mail/Message.antt =====
-- A message that arrives in a mailbox, and its reading.
use lms2012_compat.Prelude.{
  ℕ, suc, ◌+◌, ◌*◌, ◌%◌, ◌^◌, ◌≤◌, ◌<◌, ◌≡◌, refl, ◌∙◌, ap, Bool, true, false, ◌==◌, ltb, leb,
  if◌then◌else◌, List, [], ◌∷◌, some, length, get_or, arith, lt→ltb,
}
use lms2012_compat.Vm.{nobreak, busybreak, load_bytes}
use lms2012_compat.Mail.{MailBox, content_bytes, receive, c_com_test_mail_box, c_com_ready_mail_box}
use lms2012_compat.Prelude.Options.{◌>>=◌}
use lms2012_compat.Mail.Reading.{
  MailTypes, Given, number, Place, read_number, read_round, read_rounds, rounds_of, count_read,
  c_com_read_mail_box,
}

abbrev pub AllBytes : List ℕ → Type 0
AllBytes [] = Unit
AllBytes (c ∷ cs) = (c < 256) × AllBytes cs

-- The bytes of a mailbox from a place on are those of a list.
abbrev Holds : MailBox → ℕ → List ℕ → Type 0
Holds b i [] = Unit
Holds b i (c ∷ cs) = (b.content i ≡ c) × Holds b (suc i) cs

Holds-from :
    (b : MailBox) (i : ℕ) (cs : List ℕ)
    → ((j : ℕ) → j < length cs → b.content (i + j) ≡ get_or cs j 0)
    → Holds b i cs
Holds-from b i [] f = tt
Holds-from b i (c ∷ cs) f = (
  ap b.content (plus_zero i) ∙ f 0 (omega arith),
  Holds-from b (suc i) cs (λ j l. ap b.content (plus_suc i j) ∙ f (suc j) (omega arith)),
)
  where
    plus_zero : (n : ℕ) → n ≡ n + 0
    plus_zero n = omega arith

    plus_suc : (n m : ℕ) → suc n + m ≡ n + suc m
    plus_suc n m = omega arith

times_one : (n : ℕ) → n * 1 ≡ n
times_one n = omega arith

plus_one : (n : ℕ) → n + 1 ≡ suc n
plus_one n = omega arith

zero_plus : (n : ℕ) → 0 + n ≡ n
zero_plus n = omega arith

abbrev pub numbers : List ℕ → List Given
numbers [] = []
numbers (c ∷ cs) = number c ∷ numbers cs

round-Holds :
    (t : MailTypes) (p : Place) (b : MailBox) (i c : ℕ)
    → b.box_type ≡ t.data_8
    → i < content_bytes
    → b.content i ≡ c
    → c < 256
    → read_round t p i b ≡ some (number c, b)
unfolding read_round read_number load_bytes
round-Holds t p b i c type l h a =
    let same : (b.box_type == t.data_8) ≡ true = ground arith in
    let fit : leb ((i + 1) * 1) content_bytes ≡ true = ground arith in
    let e : b.content (i * 1) % 256 + 0 ≡ c = rw (times_one i, h) (omega (arith, a)) in
    rw (same, fit) (ap (λ (v : ℕ). some (number v, b)) (omega (arith, e)))

rounds-Holds :
    (t : MailTypes) (places : ℕ → Place) (b : MailBox) (i : ℕ) (cs : List ℕ)
    → b.box_type ≡ t.data_8
    → i + length cs ≤ content_bytes
    → Holds b i cs
    → AllBytes cs
    → read_rounds t places (length cs) i b ≡ some (numbers cs, b)
unfolding read_rounds
rounds-Holds t places b i [] type l h a = refl
rounds-Holds t places b i (c ∷ cs) type l h a =
    rw
      (
        round-Holds t (places i) b i c type (omega (arith, l)) h.0 a.0,
        plus_one i,
        rounds-Holds t places b (suc i) cs type (omega (arith, l)) h.1 a.1,
      )
      refl

read_open :
    (t : MailTypes) (places : ℕ → Place) (n : ℕ) (b : MailBox) (gs : List Given)
    → b.is_open ≡ true
    → rounds_of n ≡ n
    → read_rounds t places n 0 b ≡ some (gs, b)
    → c_com_read_mail_box t places n b ≡ some (gs, count_read b)
unfolding c_com_read_mail_box
read_open t places n b gs h k run =
    ap
      (λ (opened : Bool).
        if opened
        then read_rounds t places (rounds_of n) 0 b >>= (λ r. some (r.0, count_read r.1))
        else some ([], b))
      h
    ∙ rw (k, run) refl

differ : (n : ℕ) → n < 2 ^ 16 → ((n + 1) % 2 ^ 16 == n) ≡ false
differ n h = ground arith

self : (n : ℕ) → (n == n) ≡ true
self n = ground arith

-- A message of at most 127 bytes that arrives in an open mailbox of the type DATA_8 without new messages is
-- received: the mailbox has a new message then, and waiting for one goes on. Reading as many values as
-- were sent, at whatever places, gives the bytes that were sent, one to each operand; after that there is no
-- new message, and waiting is busy.
pub receive-read :
    (t : MailTypes) (places : ℕ → Place) (payload : List ℕ) (b : MailBox)
    → b.is_open ≡ true
    → b.box_type ≡ t.data_8
    → b.write_cnt ≡ b.read_cnt
    → b.read_cnt < 2 ^ 16
    → length payload ≤ 127
    → AllBytes payload
    → (b' : MailBox) × (receive payload b ≡ some b')
      × (c_com_test_mail_box b' ≡ false)
      × (c_com_ready_mail_box b' ≡ nobreak)
      × ((b'' : MailBox) × (c_com_read_mail_box t places (length payload) b'
            ≡ some (numbers payload, b''))
          × (c_com_test_mail_box b'' ≡ true)
          × (c_com_ready_mail_box b'' ≡ busybreak))
unfolding receive c_com_test_mail_box c_com_ready_mail_box c_com_read_mail_box
receive-read t places payload b is_open type same small le bytes =
    let fit : leb (length payload) content_bytes ≡ true = ground arith in
    let d = differ b.read_cnt small in
    let b' : MailBox = record b {
      content = λ i. if ltb i (length payload) then get_or payload i 0 else b.content i;
      data_size = length payload % 2 ^ 16;
      write_cnt = (b.write_cnt + 1) % 2 ^ 16;
    } in
    let held =
      Holds-from b' 0 payload (λ j l. rw (zero_plus j, lt→ltb j (length payload) l) refl) in
    let run = rounds-Holds t places b' 0 payload type (omega (arith, le)) held bytes in
    let rounds : rounds_of (length payload) ≡ length payload = ground arith in
    (
      b',
      rw fit refl,
      rw (same, d) refl,
      rw (same, d) refl,
      (
        record b' { read_cnt = (b.read_cnt + 1) % 2 ^ 16 },
        read_open t places (length payload) b' (numbers payload) is_open rounds run
            ∙ rw (same, d) refl,
        rw (same, self ((b.read_cnt + 1) % 2 ^ 16)) refl,
        rw (same, self ((b.read_cnt + 1) % 2 ^ 16)) refl,
      ),
    )
