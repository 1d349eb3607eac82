-- ===== src/LanPlayback/Payload/Keys.antt =====
-- Under which key context and nonce `encode_data` of app/host/src/lan_playback.rs encrypts a chunk.
use codex_keyboard_windows.Base.{
  ℕ, ◌^◌, ◌<◌, ◌≡◌, ◌↔◌, refl, sym, ap, ◌∙◌, List, [], ◌∷◌, ◌++◌, get_or, read, le_bytes, from_le,
  from_le-le_bytes,
}
use codex_keyboard_windows.LanPlayback.{PlaybackIdentity}
use codex_keyboard_windows.LanPlayback.Control.Identity.{IsIdentity}
use codex_keyboard_windows.LanPlayback.Payload.{eipdkey1, data_context, data_nonce}

context_body : PlaybackIdentity → ℕ → List ℕ
context_body d nonce =
    eipdkey1
    ++ (d.slot
        ∷ 0
        ∷ 0
        ∷ 0
        ∷ (le_bytes 4 d.request_generation
            ++ (le_bytes 4 d.connection_generation
                ++ (le_bytes 8 d.summary_generation
                    ++ (le_bytes 8 d.lease ++ (le_bytes 8 nonce ++ []))))))

data_context_lem : (d : PlaybackIdentity) (nonce : ℕ) → data_context d nonce ≡ context_body d nonce
unfolding data_context context_body le_bytes
data_context_lem d nonce = refl

-- The integers of a context are read back from it.
read-context_body :
    (d : PlaybackIdentity) (nonce : ℕ)
    → (get_or (context_body d nonce) 8 0 ≡ d.slot)
      × (read 12 4 (context_body d nonce) ≡ le_bytes 4 d.request_generation)
      × (read 16 4 (context_body d nonce) ≡ le_bytes 4 d.connection_generation)
      × (read 20 8 (context_body d nonce) ≡ le_bytes 8 d.summary_generation)
      × (read 28 8 (context_body d nonce) ≡ le_bytes 8 d.lease)
      × (read 36 8 (context_body d nonce) ≡ le_bytes 8 nonce)
unfolding context_body le_bytes
read-context_body d nonce = (refl, refl, refl, refl, refl, refl)

le_bytes-injective : (n a b : ℕ) → a < 256 ^ n → b < 256 ^ n → le_bytes n a ≡ le_bytes n b → a ≡ b
le_bytes-injective n a b ha hb e =
    sym (from_le-le_bytes n a ha) ∙ ap from_le e ∙ from_le-le_bytes n b hb

-- Valid identities and 64-bit nonces with the same key context are the same.
pub data_context-injective :
    (d e : PlaybackIdentity) (nonce nonce' : ℕ)
    → IsIdentity d
    → IsIdentity e
    → nonce < 256 ^ 8
    → nonce' < 256 ^ 8
    → data_context d nonce ≡ data_context e nonce'
    → (d ≡ e) × (nonce ≡ nonce')
data_context-injective d e nonce nonce' hd he hn hn' same =
    let bodies : context_body d nonce ≡ context_body e nonce' =
      sym (data_context_lem d nonce) ∙ same ∙ data_context_lem e nonce' in
    let (s, r, k, g, l, n) = read-context_body d nonce in
    let (s', r', k', g', l', n') = read-context_body e nonce' in
    let slots : d.slot ≡ e.slot = sym s ∙ ap (λ p. get_or p 8 0) bodies ∙ s' in
    let requests : d.request_generation ≡ e.request_generation =
      le_bytes-injective 4 _ _ hd.request_generation_fits he.request_generation_fits
        (sym r ∙ ap (λ p. read 12 4 p) bodies ∙ r') in
    let connections : d.connection_generation ≡ e.connection_generation =
      le_bytes-injective 4 _ _ hd.connection_generation_fits he.connection_generation_fits
        (sym k ∙ ap (λ p. read 16 4 p) bodies ∙ k') in
    let summaries : d.summary_generation ≡ e.summary_generation =
      le_bytes-injective 8 _ _ hd.summary_generation_fits he.summary_generation_fits
        (sym g ∙ ap (λ p. read 20 8 p) bodies ∙ g') in
    let leases : d.lease ≡ e.lease =
      le_bytes-injective 8 _ _ hd.lease_fits he.lease_fits
        (sym l ∙ ap (λ p. read 28 8 p) bodies ∙ l') in
    (
      (λ i. record {
        slot = slots i;
        request_generation = requests i;
        connection_generation = connections i;
        summary_generation = summaries i;
        lease = leases i;
      }),
      le_bytes-injective 8 nonce nonce' hn hn' (sym n ∙ ap (λ p. read 36 8 p) bodies ∙ n'),
    )

read-data_nonce : (offset : ℕ) → read 0 4 (data_nonce offset) ≡ le_bytes 4 offset
unfolding data_nonce le_bytes
read-data_nonce offset = refl

-- Offsets of 32 bits with the same nonce are the same.
pub data_nonce-injective :
    (a b : ℕ) → a < 256 ^ 4 → b < 256 ^ 4 → data_nonce a ≡ data_nonce b → a ≡ b
data_nonce-injective a b ha hb e =
    le_bytes-injective 4 a b ha hb
      (sym (read-data_nonce a) ∙ ap (λ p. read 0 4 p) e ∙ read-data_nonce b)

-- For valid identities and for nonces and offsets of their widths, two data packets have the same
-- key context and the same nonce exactly if they belong to the same transfer and request and stand
-- at the same offset, whatever their lengths and contents.
pub chunk_nonce_iff :
    (d e : PlaybackIdentity) (nonce nonce' offset offset' : ℕ)
    → IsIdentity d
    → IsIdentity e
    → nonce < 256 ^ 8
    → nonce' < 256 ^ 8
    → offset < 256 ^ 4
    → offset' < 256 ^ 4
    → ((data_context d nonce ≡ data_context e nonce') × (data_nonce offset ≡ data_nonce offset'))
      ↔ ((d ≡ e) × (nonce ≡ nonce') × (offset ≡ offset'))
chunk_nonce_iff d e nonce nonce' offset offset' hd he hn hn' ho ho' = (
  (λ same.
      let (p, q) = data_context-injective d e nonce nonce' hd he hn hn' same.0 in
      (p, q, data_nonce-injective offset offset' ho ho' same.1)),
  λ same. (λ i. data_context (same.0 i) (same.1 i), λ i. data_nonce (same.2 i)),
)
