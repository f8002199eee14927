-- ===== src/Store/Tokens.antt =====
-- The tokens of nexus-workflow-core/src/adapters/InMemoryStateStore.ts.
use nexus_workflow.Common.{
  String, ◌&&◌, Option, some, List, [], ◌∷◌, ◌≡◌, refl, ap, ◌∙◌, arith, ◌==◌, eq_iff, find, or_else,
  Bool-cases, inl, inr, if◌then◌else◌,
}
use nexus_workflow.Common.Dict.{lookup, insert, lookup-insert}
use nexus_workflow.Model.Types.{Token}
use nexus_workflow.Store.State.{StateStore}
use nexus_workflow.Store.Operations.{put_token, save_tokens, get_all_tokens}

-- The token of an instance that an id names.
abbrev pub token_of : String → String → StateStore → Option Token
token_of instance_id id s = find (λ t. t.id == id) (get_all_tokens instance_id s)

-- The last of the saved tokens with that instance and id, or else the token of before.
abbrev pub last_saved : String → String → List Token → Option Token → Option Token
last_saved instance_id id [] before = before
last_saved instance_id id (t ∷ ts) before =
    last_saved instance_id id ts
      (if t.instance_id == instance_id && t.id == id then some t else before)

find-put_token :
    (t : Token) (us : List Token) (id : String)
    → find (λ u. u.id == id) (put_token t us)
      ≡ (if t.id == id then some t else find (λ u. u.id == id) us)
find-put_token t [] id = refl
find-put_token t (u ∷ us) id =
    ground (arith, find-put_token t us id, eq_iff u.id t.id, eq_iff u.id id, eq_iff t.id id)

module _ (instance_id id : String) where
  token_of-put_token :
      (t : Token) (s : StateStore)
      → token_of instance_id id (record s {
        tokens =
            insert t.instance_id
              (put_token t (or_else (lookup t.instance_id s.tokens) []))
              s.tokens;
      })
        ≡ (if t.instance_id == instance_id && t.id == id then some t else token_of instance_id id s)
  unfolding get_all_tokens
  token_of-put_token t s = elim (Bool-cases (t.instance_id == instance_id)) [
    | inl same ↦ ground (
      arith,
      lookup-insert t.instance_id instance_id
          (put_token t (or_else (lookup t.instance_id s.tokens) [])) s.tokens,
      find-put_token t (or_else (lookup t.instance_id s.tokens) []) id,
      ap (λ k. lookup k s.tokens) ((eq_iff t.instance_id instance_id).0 same),
    )
    | inr other ↦ ground (
      arith,
      lookup-insert t.instance_id instance_id
          (put_token t (or_else (lookup t.instance_id s.tokens) [])) s.tokens,
    )
  ]

  -- After `saveTokens`, the token of an instance and an id is the last of the saved ones with both, or
  -- else the one that was there before; the tokens of other ids and other instances are not touched.
  pub token_of-save_tokens :
      (ts : List Token) (s : StateStore)
      → token_of instance_id id (save_tokens ts s)
        ≡ last_saved instance_id id ts (token_of instance_id id s)
  unfolding save_tokens get_all_tokens
  token_of-save_tokens [] s = refl
  token_of-save_tokens (t ∷ ts) s =
      token_of-save_tokens ts (record s {
        tokens =
            insert t.instance_id (put_token t (or_else (lookup t.instance_id s.tokens) []))
              s.tokens;
      })
      ∙ ap (last_saved instance_id id ts) (token_of-put_token t s)
