-- ===== src/Tools/Press/Token.antt =====
-- The tokens with which a guest confirms a press.
use local_voice_agent.Prelude.{
  ℕ, ◌≡◌, ◌≢◌, ◌↔◌, true, some, arith, eq_iff, nat_eq, string_eq, option_eq,
}
use local_voice_agent.Value.{lookup, get_or, get}
use local_voice_agent.Models.{Uuid}
use local_voice_agent.Tools.Reply.{Outside}
use local_voice_agent.Tools.Press.{
  confirmation_payload, make_confirmation_token, valid_confirmation_token,
}

module _ (outside : Outside) (button_id : ℕ) (stay request : Uuid) where
  -- If what was signed is read back and uuids have distinct texts, then the token that a refused
  -- press hands out is valid for exactly the presses of the same button in the same stay by another
  -- request: the model cannot confirm in the request that asked.
  pub make-valid_confirmation_token :
      ((a b : Uuid) → outside.uuid_text a ≡ outside.uuid_text b → a ≡ b)
      → outside.signing.loads (make_confirmation_token outside button_id stay request)
        ≡ some (confirmation_payload outside button_id stay request)
      → (other_button : ℕ) (other_stay other_request : Uuid)
      → (valid_confirmation_token outside
            (make_confirmation_token outside button_id stay request)
            other_button
            other_stay
            other_request
          ≡ true)
        ↔ ((button_id ≡ other_button) × (stay ≡ other_stay) × (request ≢ other_request))
  unfolding valid_confirmation_token get get_or lookup
  make-valid_confirmation_token inj reads b s r =
      rw (valid_confirmation_token, reads) ground
        (
          arith,
          eq_iff (outside.uuid_text stay) (outside.uuid_text s),
          eq_iff (outside.uuid_text request) (outside.uuid_text r),
          inj stay s,
          inj request r,
        )
