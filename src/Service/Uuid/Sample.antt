-- ===== src/Service/Uuid/Sample.antt =====
-- A UUID as api/internal/service/uuid.go prints it.
use zaas.Prelude.{◌≡◌, refl}
use zaas.Service.Uuid.{without_dashes}
use zaas.Service.Uuid.Laws.{IsUuid}

undashed :
    (without_dashes "01234567" ≡ "01234567")
    × (without_dashes "89ab" ≡ "89ab")
    × (without_dashes "4def" ≡ "4def")
    × (without_dashes "0123456789ab" ≡ "0123456789ab")
unfolding without_dashes
undashed = (refl, refl, refl, refl)

pub fixed-IsUuid : IsUuid "01234567-89ab-4def-89ab-0123456789ab"
fixed-IsUuid = record {
  time_low = "01234567";
  time_mid = "89ab";
  time_high = "4def";
  clock_seq = "89ab";
  node = "0123456789ab";
  parts = (
    record { sized = refl; undashed = undashed.0 },
    record { sized = refl; undashed = undashed.1 },
    record { sized = refl; undashed = undashed.2 },
    record { sized = refl; undashed = undashed.1 },
    record { sized = refl; undashed = undashed.3 },
  );
  printed = refl;
}
