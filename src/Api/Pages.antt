-- ===== src/Api/Pages.antt =====
-- The pages of blocks.
use go_blockchain.Prelude.{
  ℕ, zero, suc, ◌+◌, ◌≤◌, ◌<◌, ◌≡◌, refl, sym, ap, ◌∙◌, true, false, List, [], ◌∷◌, ◌++◌,
  append_assoc, append-nil, map, Option, none, some, arith, ltb, leb, ℤ, pos, negsuc, Bytes, take,
  drop,
}
use go_blockchain.Storage.{Storage}
use go_blockchain.Core.External.{Codec}
use go_blockchain.Core.Block.{Block}
use go_blockchain.Core.Chain.{Blockchain, blocks}
use go_blockchain.Api.{
  BlockJson, json, map_block, atoi, limit_of, offset_of, page_from, is_options, handle_blocks,
}

-- Once nothing is left to skip, the loop collects up to the limit.
page_from-take :
    (limit offset more : ℕ) (bs : List Block) (page : List BlockJson) (count skipped : ℕ)
    → offset ≤ skipped
    → limit ≡ count + suc more
    → page_from limit offset bs page count skipped ≡ page ++ map map_block (take (suc more) bs)
unfolding page_from
page_from-take limit offset more [] page count skipped done left = sym (append-nil page)
page_from-take limit offset zero (b ∷ bs) page count skipped done left =
    let shown : ltb skipped offset ≡ false = ground arith in
    let full : leb limit (count + 1) ≡ true = ground arith in rw (shown, full) refl
page_from-take limit offset (suc more) (b ∷ bs) page count skipped done left =
    let shown : ltb skipped offset ≡ false = ground arith in
    let room : leb limit (count + 1) ≡ false = ground arith in
    rw (shown, room)
      (page_from-take limit offset more bs (page ++ map_block b ∷ []) (count + 1) skipped done
          (omega arith)
        ∙ append_assoc page (map_block b ∷ []) (map map_block (take (suc more) bs)))

page_from-skip :
    (limit offset : ℕ) (b : Block) (bs : List Block) (skipped : ℕ)
    → skipped < offset
    → page_from limit offset (b ∷ bs) [] 0 skipped ≡ page_from limit offset bs [] 0 (skipped + 1)
unfolding page_from
page_from-skip limit offset b bs skipped left =
    let hidden : ltb skipped offset ≡ true = ground arith in rw hidden refl

page_from-drop :
    (limit offset more to_skip : ℕ) (bs : List Block) (skipped : ℕ)
    → offset ≡ skipped + to_skip
    → limit ≡ suc more
    → page_from limit offset bs [] 0 skipped ≡ map map_block (take limit (drop to_skip bs))
page_from-drop limit offset more zero bs skipped left positive =
    page_from-take limit offset more bs [] 0 skipped (omega arith) (omega (arith, positive))
    ∙ ap (λ n. map map_block (take n bs)) (sym positive)
page_from-drop limit offset more (suc to_skip) [] skipped left positive =
    unfold page_from in rw positive refl
page_from-drop limit offset more (suc to_skip) (b ∷ bs) skipped left positive =
    page_from-skip limit offset b bs skipped (omega arith)
    ∙ page_from-drop limit offset more to_skip bs (skipped + 1) (omega arith) positive

limit_of_positive : (l : Option ℤ) → (more : ℕ) × (limit_of l ≡ suc more)
unfolding limit_of
limit_of_positive none = (9, refl)
limit_of_positive (some (pos zero)) = (9, refl)
limit_of_positive (some (pos (suc n))) =
    let positive : ltb 0 (suc n + 0) ≡ true = ground arith in (n, rw positive refl)
limit_of_positive (some (negsuc n)) =
    let negative : ltb (0 + suc n) 0 ≡ false = ground arith in (9, rw negative refl)

-- A request for a page, whatever its parameters are, is answered with the blocks of the walk from the
-- tip, without the first ones up to the offset, and of the rest no more than the limit. The limit is 10
-- and the offset 0 where the parameter is not a number above zero, or not one of at least zero.
pub handle_blocks-page {ℓ} :
    {S : Type ℓ} (st : Storage S) (bg : Codec Block) (fuel : ℕ) (bc : Blockchain S)
    (method limit offset : Bytes) (bs : List Block)
    → is_options method ≡ false
    → blocks st bg fuel bc ≡ some bs
    → handle_blocks st bg fuel bc method limit offset
      ≡ some
          (json (map map_block (take (limit_of (atoi limit)) (drop (offset_of (atoi offset)) bs))))
unfolding handle_blocks
handle_blocks-page st bg fuel bc method limit offset bs other walked =
    let (more, positive) = limit_of_positive (atoi limit) in
    rw (other, walked, handle_blocks)
      (ap (λ p. some (json p))
        (page_from-drop (limit_of (atoi limit)) (offset_of (atoi offset)) more
          (offset_of (atoi offset)) bs 0 (omega arith) positive))
