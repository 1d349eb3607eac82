-- ===== src/LanPlayback/Mailbox/Laws.antt =====
-- A valid status is one whose unread bits are those of the covered slots, and it survives the wire.
use Prim.Native.Nat.{bit_and}
use codex_keyboard_windows.Base.{
  ℕ, ◌+◌, ◌*◌, ◌^◌, ◌≤◌, ◌<◌, ◌≡◌, ◌↔◌, refl, sym, ap, subst, ◌∙◌, Bool, true, false, ◌&&◌,
  passes_under, passes_under_lem, List, [], ◌∷◌, ◌++◌, length, replicate, arith, le_bytes, get_u32,
  from_le-le_bytes, ==_iff, ◌==◌, ◌!=◌, leb, if◌then◌else◌, ok, length-append, take-append,
  take-append_length, err, Bool-cases, inl, inr,
}
use codex_keyboard_windows.Crypto.{Crypto, IsMac}
use codex_keyboard_windows.LanPlayback.{MailboxStatus, malformed}
use codex_keyboard_windows.LanPlayback.Auth.Laws.{tag_of, sign-append, verify-tag_of, length-tag_of}
use codex_keyboard_windows.LanPlayback.Mailbox.{
  eimb, bool_eq, valid_mailbox_status, mailbox_packet, mailbox_fields, encode_mailbox_status,
  decode_mailbox_status,
}

-- The slots with a nonzero coverage, as a bit mask.
abbrev pub mask : List ℕ → ℕ
mask [] = 0
mask (coverage ∷ rest) = (if coverage == 0 then 0 else 1) + 2 * mask rest

pub record IsMailbox (s : MailboxStatus) : Type 0 where
  pub running_bounded : s.running_tasks ≤ 4
  pub unread_covered : s.unread_slots ≡ mask s.coverage_by_slot

abbrev bit : Bool → ℕ
bit true = 1
bit false = 0

abbrev mask_of : Bool → Bool → Bool → Bool → ℕ
mask_of a b c d = bit a + 2 * (bit b + 2 * (bit c + 2 * (bit d + 2 * 0)))

-- The tests of the source on a byte, with the four coverages as flags.
abbrev covers : Bool → Bool → Bool → Bool → ℕ → Bool
covers a b c d u =
    (bit_and u 0xf0 == 0)
    && (bool_eq (bit_and u 1 != 0) a
        && (bool_eq (bit_and u 2 != 0) b
            && (bool_eq (bit_and u 4 != 0) c && (bool_eq (bit_and u 8 != 0) d && true))))

covers_table :
    (a b c d : Bool)
    → passes_under (λ u. bool_eq (covers a b c d u) (u == mask_of a b c d)) 256 ≡ true
unfolding passes_under
covers_table true true true true = refl
covers_table true true true false = refl
covers_table true true false true = refl
covers_table true true false false = refl
covers_table true false true true = refl
covers_table true false true false = refl
covers_table true false false true = refl
covers_table true false false false = refl
covers_table false true true true = refl
covers_table false true true false = refl
covers_table false true false true = refl
covers_table false true false false = refl
covers_table false false true true = refl
covers_table false false true false = refl
covers_table false false false true = refl
covers_table false false false false = refl

covers_lem :
    (a b c d : Bool) (u : ℕ) → u < 256 → bool_eq (covers a b c d u) (u == mask_of a b c d) ≡ true
covers_lem a b c d u h =
    passes_under_lem (λ x. bool_eq (covers a b c d x) (x == mask_of a b c d)) 256 u h
      (covers_table a b c d)

one_flag : (a : ℕ) → (if a == 0 then 0 else 1) ≡ bit (a != 0)
one_flag a = ground arith

mask_flags : (a b c d : ℕ) → mask (a ∷ b ∷ c ∷ d ∷ []) ≡ mask_of (a != 0) (b != 0) (c != 0) (d != 0)
mask_flags a b c d = rw (one_flag a, one_flag b, one_flag c, one_flag d)

tests_split :
    (high running covered target : Bool)
    → bool_eq (high && covered) target ≡ true
    → ((high && (running && covered)) ≡ true) ↔ ((running ≡ true) × (target ≡ true))
tests_split true true true t h = ground arith
tests_split _ _ _ t h = ground arith

four : (xs : List ℕ) → length xs ≡ 4 → (a b c d : ℕ) × (xs ≡ a ∷ b ∷ c ∷ d ∷ [])
four [] h = absurd (omega arith)
four (a ∷ []) h = absurd (omega arith)
four (a ∷ b ∷ []) h = absurd (omega arith)
four (a ∷ b ∷ c ∷ []) h = absurd (omega arith)
four (a ∷ b ∷ c ∷ d ∷ []) h = (a, b, c, d, refl)
four (a ∷ b ∷ c ∷ d ∷ e ∷ xs) h = absurd (omega arith)

valid_of_four :
    (u r a b c d : ℕ)
    → u < 256
    → let s : MailboxStatus = record {
      unread_slots = u;
      running_tasks = r;
      coverage_by_slot = a ∷ b ∷ c ∷ d ∷ [];
    } in
      (valid_mailbox_status s ≡ true)
      ↔ ((leb r 4 ≡ true) × ((u == mask_of (a != 0) (b != 0) (c != 0) (d != 0)) ≡ true))
unfolding valid_mailbox_status
valid_of_four u r a b c d h =
    tests_split (bit_and u 0xf0 == 0) (leb r 4) _ _
      (covers_lem (a != 0) (b != 0) (c != 0) (d != 0) u h)

valid_of_list :
    (s : MailboxStatus) (a b c d : ℕ)
    → s.unread_slots < 256
    → s.coverage_by_slot ≡ a ∷ b ∷ c ∷ d ∷ []
    → (valid_mailbox_status s ≡ true) ↔ IsMailbox s
valid_of_list s a b c d h e =
    let s' : MailboxStatus = record s { coverage_by_slot = a ∷ b ∷ c ∷ d ∷ [] } in
    let same : s ≡ s' = λ i. record s { coverage_by_slot = e i } in
    let both = valid_of_four s.unread_slots s.running_tasks a b c d h in
    let m = mask_flags a b c d in
    subst (λ x. (valid_mailbox_status x ≡ true) ↔ IsMailbox x) (sym same)
      (
        (λ v. record {
          running_bounded = ground (arith, both.0 v);
          unread_covered = ground (arith, both.0 v, m);
        }),
        λ v.
            both.1 (
              ground (arith, v.running_bounded),
              (==_iff s.unread_slots _).1 (v.unread_covered ∙ m),
            ),
      )

-- A status of one byte of marks and four coverage counts passes `valid_mailbox_status` exactly if
-- at most four tasks run and the marked slots are the slots that cover something.
pub valid_mailbox_status_iff :
    (s : MailboxStatus)
    → s.unread_slots < 256
    → length s.coverage_by_slot ≡ 4
    → (valid_mailbox_status s ≡ true) ↔ IsMailbox s
valid_mailbox_status_iff s h n =
    let (a, b, c, d, e) = four s.coverage_by_slot n in valid_of_list s a b c d h e

mailbox_body : MailboxStatus → ℕ → List ℕ
mailbox_body s sequence =
    eimb
    ++ ((3 ∷ [])
        ++ ((s.unread_slots ∷ [])
            ++ ((s.running_tasks ∷ [])
                ++ ((0 ∷ []) ++ (le_bytes 4 sequence ++ (s.coverage_by_slot ++ []))))))

mailbox_packet_four :
    (u r a b c d sequence : ℕ)
    → let s : MailboxStatus = record {
      unread_slots = u;
      running_tasks = r;
      coverage_by_slot = a ∷ b ∷ c ∷ d ∷ [];
    } in
      mailbox_packet s sequence ≡ mailbox_body s sequence ++ replicate 16 0
unfolding mailbox_packet mailbox_body le_bytes
mailbox_packet_four u r a b c d sequence = refl

mailbox_packet_lem :
    (s : MailboxStatus) (sequence : ℕ)
    → length s.coverage_by_slot ≡ 4
    → mailbox_packet s sequence ≡ mailbox_body s sequence ++ replicate 16 0
mailbox_packet_lem s sequence n =
    let (a, b, c, d, e) = four s.coverage_by_slot n in
    let same : s ≡ record s { coverage_by_slot = a ∷ b ∷ c ∷ d ∷ [] } =
      λ i. record s { coverage_by_slot = e i } in
    subst (λ x. mailbox_packet x sequence ≡ mailbox_body x sequence ++ replicate 16 0) (sym same)
      (mailbox_packet_four s.unread_slots s.running_tasks a b c d sequence)

mailbox_fields-body :
    (s : MailboxStatus) (sequence : ℕ) (rest : List ℕ)
    → length s.coverage_by_slot ≡ 4
    → mailbox_fields (mailbox_body s sequence ++ rest) ≡ s
unfolding mailbox_fields mailbox_body le_bytes
mailbox_fields-body s sequence rest n = λ i. record {
  unread_slots = s.unread_slots;
  running_tasks = s.running_tasks;
  coverage_by_slot =
      (take-append 4 (s.coverage_by_slot ++ []) rest
            (omega (arith, length-append s.coverage_by_slot [], n))
          ∙ take-append_length 4 s.coverage_by_slot [] n)
        i;
}

module _ (c : Crypto) (m : IsMac c) where
  decode_mailbox_status-body :
      (s : MailboxStatus) (sequence : ℕ) (key : List ℕ)
      → length s.coverage_by_slot ≡ 4
      → valid_mailbox_status s ≡ true
      → sequence < 256 ^ 4
      → decode_mailbox_status c
          (mailbox_body s sequence ++ tag_of c m (mailbox_body s sequence) key)
          key
        ≡ ok (s, sequence)
  unfolding decode_mailbox_status mailbox_body le_bytes get_u32
  decode_mailbox_status-body s sequence key n v h =
      let body = mailbox_body s sequence in
      ground (
        arith,
        n,
        v,
        mailbox_fields-body s sequence (tag_of c m body key) n,
        verify-tag_of c m body key,
        length-append (s.coverage_by_slot ++ []) (tag_of c m body key),
        length-append s.coverage_by_slot [],
        length-tag_of c m body key,
        from_le-le_bytes 4 sequence h,
      )

  -- A status of one byte of marks and four coverage counts that is in order encodes, with a 32-bit
  -- sequence number, to a packet that decodes to the same status and number under the same key.
  pub decode_mailbox_status-encode_mailbox_status :
      (s : MailboxStatus) (sequence : ℕ) (key : List ℕ)
      → s.unread_slots < 256
      → length s.coverage_by_slot ≡ 4
      → IsMailbox s
      → sequence < 256 ^ 4
      → (p : List ℕ) × (encode_mailbox_status c s sequence key ≡ ok p)
        × (decode_mailbox_status c p key ≡ ok (s, sequence))
  unfolding encode_mailbox_status
  decode_mailbox_status-encode_mailbox_status s sequence key u n v h =
      let body = mailbox_body s sequence in
      let valid = (valid_mailbox_status_iff s u n).1 v in
      (
        body ++ tag_of c m body key,
        rw (valid, mailbox_packet_lem s sequence n)
            (ap ok (sign-append c m body (replicate 16 0) key refl)),
        decode_mailbox_status-body s sequence key n valid h,
      )

  -- A status of one byte of marks and four coverage counts whose marked slots are not those that
  -- cover something, or with more than four running tasks, is refused as malformed.
  pub encode_mailbox_status-uncovered :
      (s : MailboxStatus) (sequence : ℕ) (key : List ℕ)
      → s.unread_slots < 256
      → length s.coverage_by_slot ≡ 4
      → ¬ IsMailbox s
      → encode_mailbox_status c s sequence key ≡ err malformed
  unfolding encode_mailbox_status
  encode_mailbox_status-uncovered s sequence key u n v =
      elim (Bool-cases (valid_mailbox_status s)) [
        | inl e ↦ absurd (v ((valid_mailbox_status_iff s u n).0 e))
        | inr e ↦ rw e
      ]
