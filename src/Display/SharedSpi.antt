-- ===== src/Display/SharedSpi.antt =====
-- The arbiter of the T-Deck's shared SPI host, core/display/src/shared_spi.rs. The owner behind the
-- mutex is a value that each call takes and returns; a transfer sees it while it runs.
use project_mycelium.Common.{◌≡◌, refl, Option, none, some}
use project_mycelium.Common.Result.{Result, ok, err}

pub data SpiDevice : Type 0 where
  display sx1262 sd_card : SpiDevice

-- `bail!("shared SPI bus is owned by ..")`.
pub data SpiError : Type 0 where
  owned_by : SpiDevice → SpiError

-- What a transfer does: from its own state and the owner of the bus to both of them and a result.
abbrev pub Transfer : Type 0 → Type 0 → Type 0
Transfer S A = Option SpiDevice → S → Option SpiDevice × S × A

module _ {S A : Type 0} where
  -- The guard releases the bus when the transfer is over, whatever it returns.
  unfoldable pub transaction : SpiDevice → Transfer S A → Transfer S (Result SpiError A)
  transaction device transfer (some active) s = (some active, s, err (owned_by active))
  transaction device transfer none s =
      let (_, after, a) = transfer (some device) s in (none, after, ok a)

module _ {S A : Type 0} where
  -- Inside a transaction that a free bus grants, every other one is refused before it transfers
  -- anything, and the bus is free again afterwards.
  pub transaction-nested :
      (device other : SpiDevice) (inner : Transfer S A) (s : S)
      → transaction device (transaction other inner) none s ≡ (none, s, ok (err (owned_by device)))
  unfolding transaction
  transaction-nested device other inner s = refl
