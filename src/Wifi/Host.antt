-- ===== src/Wifi/Host.antt =====
-- kiosk_agent/wifi.py: the commands of NetworkManager and their failures. The host is any function
-- from the commands so far to the result of the last of them.
use local_voice_agent.Prelude.{
  code, String, ◌≡◌, Bool, true, false, not, ◌||◌, Option, List, [], ◌∷◌, ◌++◌, arith,
  if◌then◌else◌, nat_eq, string_eq, option_eq, prefix, or_text, strip, has_text,
}
use local_voice_agent.Value.{ℤ}

-- The codes of `WifiError`
pub data WifiCode : Type 0 where
  unavailable timeout not_found auth_failed controller_error invalid_ssid invalid_password :
      WifiCode
  connect_failed : WifiCode

pub data Wifi {ℓ} (A : Type ℓ) : Type ℓ where
  ok : A → Wifi A
  wifi_error : WifiCode → String → Wifi A

-- A run of `nmcli` with these arguments, or of `gdbus` with this payload for `AddConnection`
pub data Command : Type 0 where
  nmcli : List String → Command
  gdbus : String → Command

-- How a process ends: its exit status and its texts
pub data Completed : Type 0 where
  exited : (is_zero : Bool) (stdout stderr : String) → Completed
  timed_out : Completed
  os_error : Completed

-- `shutil.which`, the processes, `str.lower` and `str.upper`, `int` of a text, the uuid that is drawn
-- and the bytes of a text as GVariant
pub record Host : Type 0 where
  pub nmcli_available : Bool
  pub gdbus_available : Bool
  pub run : List Command → Completed
  pub lower : String → String
  pub upper : String → String
  pub to_int : String → Option ℤ
  pub fresh_uuid : String
  pub ssid_bytes : String → String

-- A dialogue with the host: its result, and every command that was run
abbrev pub Nm : Type 0 → Type 0
Nm A = List Command → Wifi A × List Command

module _ {A : Type 0} where
  pub pure : A → Nm A
  pure a sent = (ok a, sent)

  pub raise : WifiCode → String → Nm A
  raise code message sent = (wifi_error code message, sent)

  abbrev pub rescue : Wifi A → (WifiCode → String → Nm A) → Nm A
  rescue (ok a) handler sent = (ok a, sent)
  rescue (wifi_error code message) handler sent = handler code message sent

  -- `try: … except WifiError as exc: …`
  unfoldable pub caught : Nm A → (WifiCode → String → Nm A) → Nm A
  caught m handler sent = let (r, sent') = m sent in rescue r handler sent'

module _ {A B : Type 0} where
  abbrev pub continue : Wifi A → (A → Nm B) → Nm B
  continue (ok a) f sent = f a sent
  continue (wifi_error code message) f sent = (wifi_error code message, sent)

  infixl 5 ◌>>=◌
  unfoldable pub ◌>>=◌ : Nm A → (A → Nm B) → Nm B
  unfolding pure raise
  ◌>>=◌ m f sent = let (r, sent') = m sent in continue r f sent'

-- A chain that succeeds has succeeded step by step.
pub >>=-eq-ok :
    {A B : Type 0} (m : Nm A) (f : A → Nm B) (sent : List Command) {b : B} {sent' : List Command}
    → (m >>= f) sent ≡ (ok b, sent')
    → (a : A) × (between : List Command) × (f a between ≡ (ok b, sent'))
unfolding ◌>>=◌
>>=-eq-ok {A} {B} m f sent {b} {sent'} h = go (m sent) h
  where
    go :
        (r : Wifi A × List Command)
        → continue r.0 f r.1 ≡ (ok b, sent')
        → (a : A) × (between : List Command) × (f a between ≡ (ok b, sent'))
    go (ok a, between) e = (a, between, e)
    go (wifi_error code message, between) e = absurd (ground arith)

-- The texts in `stderr` decide the code of a failure.
judge_failure : String → String → String → Wifi String
unfolding strip has_text
judge_failure lowered stdout stderr =
    if has_text "no network with ssid" lowered || has_text "network not found" lowered
    then wifi_error not_found "This network was not found. Rescan and try again."
    else if has_text "secrets were required" lowered
        || has_text "password" lowered
        || has_text "psk" lowered
    then wifi_error auth_failed "Wrong password for this network."
    else if has_text "already active" lowered || has_text "already connected" lowered
    then ok (strip stdout)
    else wifi_error controller_error
        (or_text (prefix 200 (strip stderr)) "Could not change the Wi-Fi network.")

pub completed : Host → Completed → Wifi String
unfolding judge_failure strip
completed host timed_out = wifi_error timeout "The Wi-Fi operation timed out."
completed host os_error = wifi_error unavailable "Wi-Fi control is not available on this device."
completed host (exited true stdout stderr) = ok (strip stdout)
completed host (exited false stdout stderr) =
    judge_failure (host.lower (strip stderr)) stdout stderr

-- `_run_nmcli`
unfoldable pub run_nmcli : Host → List String → Nm String
unfolding completed
run_nmcli host args sent =
    if not host.nmcli_available
    then (wifi_error unavailable "Wi-Fi control is not available on this device.", sent)
    else let sent' = sent ++ nmcli args ∷ [] in (completed host (host.run sent'), sent')
