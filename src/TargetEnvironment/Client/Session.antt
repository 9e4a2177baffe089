-- ===== src/TargetEnvironment/Client/Session.antt =====
-- The connection of the client: when it is connected, and what a lost connection leaves.
use radar_software.Prelude.{
  String, ◌≡◌, refl, ◌↔◌, inl, inr, Bool, true, false, ◌&&◌, Option, none, some, Bool-cases, ℕ,
  arith,
}
use radar_software.Storage.{Values, Kind}
use radar_software.TargetEnvironment.{ok}
use radar_software.TargetEnvironment.TargetTable.{TargetTable}
use radar_software.TargetEnvironment.Client.{Client, connect, close_client, get_targets}

-- `connect` returns OK exactly when the client is connected afterwards.
pub connect-ok :
    {Address : Type 0} (connects : Bool) (reply : Option String) (c : Client Address)
    → ((connect connects reply c).1 ≡ ok) ↔ ((connect connects reply c).0.connected ≡ true)
unfolding connect
connect-ok connects reply c = ground (arith)

abbrev pub is_some : {A : Type 0} → Option A → Bool
is_some none = false
is_some (some a) = true

-- After `get_targets` the client is connected exactly if it was, the request was written and a line came back.
pub get_targets-connected :
    {D Address : Type 0} (values : Values) (text : Kind values.Value String)
    (uint : Kind values.Value ℕ) (number : Kind values.Value D)
    (parse : String → Option values.Value) (written : Bool) (reply : Option String)
    (shut closed : Bool) (c : Client Address) (tbl : TargetTable D)
    → (get_targets values text uint number parse written reply shut closed c tbl).0.connected
      ≡ (c.connected && (written && is_some reply))
unfolding get_targets close_client
get_targets-connected values text uint number parse written reply shut closed c tbl =
    elim (Bool-cases c.connected) [ inl e ↦ ground arith | inr e ↦ rw e refl ]
