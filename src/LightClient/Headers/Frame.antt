-- ===== src/LightClient/Headers/Frame.antt =====
-- Which accounts the loop over the headers may change.
use utxopia_solana_programs.Prelude.{
  ℕ, zero, suc, ◌+◌, ◌*◌, ◌≡◌, ◌≢◌, refl, ◌∙◌, sym, Bool-cases, inl, inr, List, All, bytes_eq,
  bytes_eq→eq, arith, Option-cases, get_elem?,
}
use utxopia_solana_programs.Prelude.Results.{ok, >>=-eq-ok}
use utxopia_solana_programs.LightClient.State.{
  Bytes, Store, Content, BlockHeader, block_header_len, put_content, block_header,
}
use utxopia_solana_programs.LightClient.Runtime.{Runtime, SystemLaws, double_sha256}
use utxopia_solana_programs.LightClient.Runtime.Claim.{
  Keeps, Keeps-trans, create_or_claim_pda-Keeps,
}
use utxopia_solana_programs.LightClient.Access.{slice, block_pda, write_header}
use utxopia_solana_programs.LightClient.Headers.{
  Batch, Chain, header_timestamp, check_median, append_header, store_header, new_header, next_chain,
  slide, process_header, process_headers, claim_header,
}
use utxopia_solana_programs.LightClient.Headers.Links.{raw_headers}

pub put_content-Keeps :
    (s : Store) (key k : Bytes) (c : Content) → k ≢ key → Keeps s (put_content s key c) k
put_content-Keeps s key k c ne = elim (Bool-cases (bytes_eq key k)) [
  | inl same ↦ absurd (ne (sym (bytes_eq→eq key k same)))
  | inr other ↦ rw other (refl, refl)
]

module _ (rt : Runtime) (laws : SystemLaws rt) where
  -- The account is none of those of the headers.
  abbrev pub NotHeader : Bytes → List Bytes → Type 0
  NotHeader k raws = All (λ raw. k ≢ (block_pda rt (double_sha256 rt raw)).0) raws

  claim_header-Keeps :
      (batch : Batch) (hash key : Bytes) (s t : Store) (k : Bytes)
      → claim_header rt batch hash key s ≡ ok t
      → k ≢ (block_pda rt hash).0
      → Keeps s t k × (key ≡ (block_pda rt hash).0)
  unfolding claim_header
  claim_header-Keeps batch hash key s t k h ne = ground (
    arith,
    bytes_eq→eq key (block_pda rt hash).0,
    create_or_claim_pda-Keeps rt laws batch.submitter key (rt.minimum_balance block_header_len)
        block_header_len s t k,
  )

  write_header-Keeps :
      (key k : Bytes) (header : BlockHeader) (s t : Store)
      → write_header rt key header s ≡ ok t
      → k ≢ key
      → Keeps s t k
  unfolding write_header
  write_header-Keeps key k header s t h ne =
      ground (arith, put_content-Keeps s key k (block_header header) ne)

  store_header-Keeps :
      (batch : Batch) (key : Bytes) (header : BlockHeader) (s t : Store) (k : Bytes)
      → store_header rt batch header.block_hash key header s ≡ ok t
      → k ≢ (block_pda rt header.block_hash).0
      → Keeps s t k
  unfolding store_header
  store_header-Keeps batch key header s t k h ne =
      let hash = header.block_hash in
      let (u, c, w) = >>=-eq-ok (claim_header rt batch hash key s) (write_header rt key header) h in
      let (kept, at) = claim_header-Keeps batch hash key s u k c ne in
      Keeps-trans s u t k kept (write_header-Keeps key k header u t w (λ e. ne (e ∙ at)))

  append_header-Keeps :
      (batch : Batch) (i : ℕ) (header : BlockHeader) (window : List ℕ) (chain next : Chain)
      (k : Bytes)
      → append_header rt batch i header window chain ≡ ok next
      → k ≢ (block_pda rt header.block_hash).0
      → Keeps chain.store next.store k
  unfolding append_header next_chain
  append_header-Keeps batch i header window chain next k h ne =
      elim (Option-cases (get_elem? batch.accounts (4 + i))) [
        | inl missing ↦ ground arith
        | inr (info, found) ↦
            ground (arith, store_header-Keeps batch info.key header chain.store next.store k)
      ]

  process_header-Keeps :
      (batch : Batch) (i : ℕ) (raw : Bytes) (chain next : Chain) (k : Bytes)
      → process_header rt batch i raw chain ≡ ok next
      → k ≢ (block_pda rt (double_sha256 rt raw)).0
      → Keeps chain.store next.store k
  unfolding process_header check_median
  process_header-Keeps batch i raw chain next k h ne =
      let header = new_header rt batch raw (double_sha256 rt raw) (chain.height + 1) chain in
      let same : header.block_hash ≡ double_sha256 rt raw = unfold new_header in refl in
      ground (
        arith,
        same,
        append_header-Keeps batch i header chain.window chain next k,
        append_header-Keeps batch i header (slide chain.window (header_timestamp raw)) chain next k,
      )

  -- A batch changes the owner and the content of no account but those of its headers.
  pub process_headers-Keeps :
      (batch : Batch) (bytes : Bytes) (n i : ℕ) (chain last : Chain) (k : Bytes)
      → process_headers rt batch bytes n i chain ≡ ok last
      → NotHeader k (raw_headers bytes n i)
      → Keeps chain.store last.store k
  unfolding process_headers
  process_headers-Keeps batch bytes zero i chain last k h ne =
      let e : chain ≡ last = cc in rw (← e) (refl, refl)
  process_headers-Keeps batch bytes (suc n) i chain last k h ne =
      let raw = slice (1 + i * 80) 80 bytes in
      let (next, first, rest) =
        >>=-eq-ok (process_header rt batch i raw chain) (process_headers rt batch bytes n (suc i))
          h in
      Keeps-trans chain.store next.store last.store k
        (process_header-Keeps batch i raw chain next k first ne.0)
        (process_headers-Keeps batch bytes n (suc i) next last k rest ne.1)
