-- ===== src/TxControl/Frame.antt =====
-- A property of the controller that the calls of one client keep. A client's operations then keep
-- it too, whatever their branches: its own Frame module proves that once.
use flex1500d.Base.{ℕ, Bool}
use flex1500d.TxControl.{TxControl, TxOwner, request, release_with}

pub record Keeps {Ctx : Type 0} (P : TxControl Ctx → Type 0) (o : TxOwner) : Type 0 where
  pub by_request : (c : TxControl Ctx) (now : ℕ) → P c → P (request c o now).1
  pub by_release : (g : Bool) (c : TxControl Ctx) → P c → P (release_with g c o).1
