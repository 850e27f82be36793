-- ===== src/Pricing/Tests.antt =====
-- app/engines/scenario_safety.py at concrete inputs.
use vi_xauusd.Prelude.{◌≤◌, ◌<◌, ◌≡◌, refl, true, some, List, [], ◌∷◌}
use vi_xauusd.Prelude.Rounding.{round_ratio}
use vi_xauusd.Positions.{long}
use vi_xauusd.Execution.{}
use vi_xauusd.Pricing.{
  PriceZone, min15, Level, conservative_entry, select_structural_stop, target_errors,
  validate_price_structure, friction, risk_distance, reward_distance, calculate_risk_reward,
  lifecycle_status,
}
use vi_xauusd.Pricing.Ordered.{ready-IsPlaced}
use vi_xauusd.Pricing.Stops.{IsChosen, select-IsChosen}

abbrev zone_4610 : PriceZone
zone_4610 = record { low = 461000; high = 461500 }

abbrev target_4640 : PriceZone
target_4640 = record { low = 464000; high = 464300 }

ready-IsPlaced_example :
    (true ≡ true) × (461000 ≤ 461200) × (461200 ≤ 461500) × (461200 < 464000) × (460400 < 461200)
unfolding lifecycle_status validate_price_structure target_errors conservative_entry
ready-IsPlaced_example =
    ready-IsPlaced long 461200 zone_4610 460400 461500 target_4640 [] 1 true refl

abbrev swings : List Level
swings =
    record { kind = "SWING_LOW_1H"; mid = 460900 }
    ∷ record { kind = "SWING_LOW_15M"; mid = 460200 }
    ∷ record { kind = "SWING_LOW_15M"; mid = 460400 }
    ∷ record { kind = "SWING_LOW_15M"; mid = 461200 }
    ∷ []

select-IsChosen_example :
    IsChosen long zone_4610 swings (select_structural_stop long zone_4610 swings)
select-IsChosen_example = select-IsChosen long zone_4610 swings

selected_4604 :
    select_structural_stop long zone_4610 swings
    ≡ some (record { level = record { kind = "SWING_LOW_15M"; mid = 460400 }; timeframe = min15 })
unfolding select_structural_stop
selected_4604 = refl

-- A spread of 0.40 and a slippage of 0.20 leave 2.22 of a ratio of 2.50.
ratio_4615 :
    calculate_risk_reward long 461500 460500 464000
      (record { spread = 40; slippage = 20; fees = 0 })
    ≡ some 224
unfolding calculate_risk_reward friction risk_distance reward_distance round_ratio
ratio_4615 = refl
