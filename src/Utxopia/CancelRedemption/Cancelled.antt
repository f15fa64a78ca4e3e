-- ===== src/Utxopia/CancelRedemption/Cancelled.antt =====
-- A cancellation behind the checks of signer, owners and addresses.
use utxopia_solana_programs.Prelude.{
  replicate, refl, Bool, ℕ, ◌+◌, ◌≤◌, ◌≡◌, ◌≢◌, ap, sym, ◌∙◌, List, ◌∷◌, true, false, take, length,
  length-take, All, arith,
}
use utxopia_solana_programs.Prelude.Results.{Result, ok}
use utxopia_solana_programs.Utxopia.Bytes.{Bytes}
use utxopia_solana_programs.Utxopia.CommitmentTree.{Hash}
use utxopia_solana_programs.Utxopia.State.{
  Store, AccountInfo, Content, RedemptionRequest, raw, pool_state, redemption_request, token_config,
  commitment_tree,
}
use utxopia_solana_programs.Utxopia.Validation.{
  Runtime, redemption_reservation_key, close_account_securely,
}
use utxopia_solana_programs.Utxopia.MarkProcessing.Conservation.{InCustody}
use utxopia_solana_programs.Utxopia.MarkProcessing.Safety.{All-take}
use utxopia_solana_programs.Utxopia.CancelRedemption.{
  CancelRedemptionData, check_cancel, restore, compute_commitment, mint_again, cancel_for,
}
use utxopia_solana_programs.Utxopia.CancelRedemption.Release.{IsBacked}
use utxopia_solana_programs.Utxopia.CancelRedemption.Stages.{
  Stage, check_cancel_lem, restore-Released, Stage-of,
}
use utxopia_solana_programs.Utxopia.CancelRedemption.Ledger.{
  Minted, Minted-framed, mint_again-Minted, credited_lem,
}
use utxopia_solana_programs.Utxopia.Coins.{Member, Distinct, coins, weigh, is_utxo}
use utxopia_solana_programs.Utxopia.CancelRedemption.Closing.{closing_lem}

-- The redemption that was cancelled, the amounts that returned to the pool, and the note.
pub record Cancelled (rt : Runtime) (poseidon2_hash : Hash → Hash → Result Hash)
    (poseidon3_hash : Hash → Hash → Hash → Result Hash) (s t : Store)
    (user pool_key redemption_key tree_key config_key : Bytes) (npk : Hash) (keys : List Bytes)
    : Type 0 where
  pub redemption : RedemptionRequest
  pub released : List ℕ
  pub commitment : Hash
  pub held : (s redemption_key).content ≡ redemption_request redemption
  pub by_requester : user ≡ redemption.requester
  pub not_approved : redemption.signing_approved ≡ false
  pub stage : Stage rt redemption (weigh (λ a. 1) released)
  pub returned :
      (weight : ℕ → ℕ)
      → coins rt pool_key weight s keys + weigh weight released ≡ coins rt pool_key weight t keys
  pub note :
      compute_commitment rt poseidon2_hash poseidon3_hash npk redemption.token_id
        redemption.amount_sats
      ≡ ok commitment
  pub minted : Minted poseidon2_hash s t tree_key config_key commitment redemption.amount_sats
  pub gone : (t redemption_key).content ≡ raw (255 ∷ replicate 177 0)

abbrev is_redemption : Content → Bool
is_redemption (redemption_request _) = true
is_redemption _ = false

-- An account that holds something else is another account.
redemption_apart :
    (s : Store) (k redemption_key : Bytes) (r : RedemptionRequest) (c : Content)
    → is_redemption c ≡ false
    → (s redemption_key).content ≡ redemption_request r
    → (s k).content ≡ c
    → k ≢ redemption_key
redemption_apart s k redemption_key r c other held at_k e = cc (
  other,
  ap is_redemption (sym at_k),
  ap (λ (x : Bytes). is_redemption (s x).content) e,
  ap is_redemption held,
)

module _ (rt : Runtime) (poseidon2_hash : Hash → Hash → Result Hash)
    (poseidon3_hash : Hash → Hash → Hash → Result Hash) where
  cancel_for_inversion :
      (P : Type 0) (user pool_info redemption_info tree_info config_info : AccountInfo)
      (infos : List AccountInfo) (ix : CancelRedemptionData) (s t : Store)
      → ((r : RedemptionRequest) (was : Bool) (s1 : Store) (total : ℕ) (s2 : Store)
          → (s redemption_info.key).content ≡ redemption_request r
          → check_cancel rt user.key r ≡ ok was
          → ix.utxo_count ≤ length infos
          → restore rt was r redemption_info.key (take ix.utxo_count infos) ix.utxo_count s
            ≡ ok (s1, total)
          → mint_again rt poseidon2_hash poseidon3_hash tree_info.key config_info.key pool_info.key
              r ix total s1
            ≡ ok s2
          → close_account_securely s2 redemption_info user ≡ ok t
          → P)
      → cancel_for rt poseidon2_hash poseidon3_hash user pool_info redemption_info tree_info
          config_info infos ix s
        ≡ ok t
      → P
  unfolding cancel_for
  cancel_for_inversion P user pool_info redemption_info tree_info config_info infos ix s t k h =
      grind arith

  pub cancel_for-Cancelled :
      (user pool_info redemption_info tree_info config_info : AccountInfo)
      (infos : List AccountInfo) (ix : CancelRedemptionData) (keys : List Bytes) (s t : Store)
      → Distinct keys
      → All (λ (info : AccountInfo). Member info.key keys) infos
      → InCustody rt s pool_info.key keys
      → IsBacked rt pool_info.key (redemption_reservation_key rt redemption_info.key) s
      → cancel_for rt poseidon2_hash poseidon3_hash user pool_info redemption_info tree_info
          config_info infos ix s
        ≡ ok t
      → InCustody rt t pool_info.key keys
        × Cancelled rt poseidon2_hash poseidon3_hash s t user.key pool_info.key redemption_info.key
            tree_info.key config_info.key ix.npk keys
  cancel_for-Cancelled user pool_info redemption_info tree_info config_info infos ix keys s t
        distinct members c backed h =
      cancel_for_inversion _ user pool_info redemption_info tree_info config_info infos ix s t
        (λ r was s1 total s2 held may fits restored minted closing.
          check_cancel_lem rt _ user.key r was
            (λ mine not_approved progress.
              let (back, number) =
                restore-Released rt pool_info.key keys was r redemption_info.key
                  (take ix.utxo_count infos) ix.utxo_count total s s1 distinct
                  (All-take _ ix.utxo_count infos members) backed
                  (length-take ix.utxo_count infos fits) restored in
              let pool1 = back.kept pool_info.key (ap is_utxo c.held) ∙ c.held in
              let red1 = back.kept redemption_info.key (ap is_utxo held) ∙ held in
              let (commitment, after, note, m, (shielded, paid), pool2, coins2, rest2) =
                mint_again-Minted rt poseidon2_hash poseidon3_hash tree_info.key config_info.key
                  pool_info.key r ix total s1 s2 c.pool keys pool1 minted in
              let (custody, more, longer, _) =
                credited_lem c.pool after shielded total ix.utxo_count rt.unix_timestamp c.custody
                  (λ e. omega (arith, e, back.gained, back.counted, back.valued)) paid in
              let same1 = λ (k : Bytes) (e : is_utxo (s1 k).content ≡ false).
                sym (back.kept k (sym (back.same_kind k) ∙ e)) in
              let tree_s = same1 tree_info.key (ap is_utxo m.tree_held) ∙ m.tree_held in
              let config_s = same1 config_info.key (ap is_utxo m.config_held) ∙ m.config_held in
              let apart =
                λ (k : Bytes) (c : Content) (e : is_redemption c ≡ false)
                    (at_k : (s k).content ≡ c).
                  redemption_apart s k redemption_info.key r c e held at_k in
              let apart_tree = apart tree_info.key (commitment_tree m.tree) refl tree_s in
              let apart_config = apart config_info.key (token_config m.config) refl config_s in
              let apart_pool = apart pool_info.key (pool_state c.pool) refl c.held in
              let red2 : (s2 redemption_info.key).content ≡ redemption_request r =
                rest2 redemption_info.key (λ x. apart_tree (sym x)) (λ x. apart_config (sym x))
                  (λ x. apart_pool (sym x))
                ∙ red1 in
              let (others, gone, closing_coins) =
                closing_lem rt s2 t redemption_info user r pool_info.key keys red2 closing in
              let at_end = λ (weight : ℕ → ℕ). closing_coins weight ∙ coins2 weight in
              (
                record {
                  pool = after;
                  held = others pool_info.key apart_pool ∙ pool2;
                  custody = custody;
                  amount =
                      omega (
                        arith,
                        more,
                        c.amount,
                        back.returned (λ a. a),
                        back.gained,
                        at_end (λ a. a),
                      );
                  count = omega (
                    arith,
                    longer,
                    c.count,
                    back.returned (λ a. 1),
                    back.counted,
                    at_end (λ a. 1),
                  );
                },
                record {
                  redemption = r;
                  released = back.amounts;
                  commitment = commitment;
                  held = held;
                  by_requester = mine;
                  not_approved = not_approved;
                  stage = rw back.counted (Stage-of rt r was ix.utxo_count progress number);
                  returned = λ weight. back.returned weight ∙ sym (at_end weight);
                  note = note;
                  minted =
                      Minted-framed poseidon2_hash s t s1 s2 tree_info.key config_info.key
                        commitment r.amount_sats m (same1 tree_info.key (ap is_utxo m.tree_held))
                        (same1 config_info.key (ap is_utxo m.config_held))
                        (others tree_info.key apart_tree) (others config_info.key apart_config);
                  gone = gone;
                },
              ))
            may)
        h
