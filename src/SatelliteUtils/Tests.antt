-- ===== src/SatelliteUtils/Tests.antt =====
-- The theorems about the models at concrete inputs: whole numbers for `double`.
use radar_software.Prelude.{◌+◌, ◌*◌, ◌/◌, ◌^◌, ◌≡◌, refl, true, ◌&&◌, arith}
use radar_software.Prelude.Int.{
  ℤ, pos, sub_ℕ, pos_part, neg_part, nat_abs, leb_ℤ, ltb_ℤ, ◌+ℤ◌, ◌-ℤ◌,
}
use radar_software.Double.{Double}
use radar_software.Float.{Floats}
use radar_software.TargetEnvironment.Catalog.{Keo, sgdp4_deep_norm, choose_mode}
use radar_software.SatelliteUtils.Norad.{Norad, new_norad, position_of}
use radar_software.SatelliteUtils.Norad.Flights.{Lands, made as made_for_entry, position_of-Flown}
use radar_software.TargetEnvironment.Catalog.Orbits.{Orbit}
use radar_software.SatelliteUtils.Vector3.{Vect3}
use radar_software.SatelliteUtils.NoradBase.{cs_eci}
use radar_software.SatelliteUtils.NoradSgdp4.{CalcData, LongPeriod, new_sgdp4, get_position}
use radar_software.SatelliteUtils.NoradSgdp4.Warnings.{IsWarned, get_position-IsWarned}
use radar_software.SatelliteUtils.NoradSdp4.{new_sdp4, position_deep}
use radar_software.SatelliteUtils.NoradSdp4.Secular.Exact.{IsExact}
use radar_software.SatelliteUtils.NoradSdp4.Kept.{made, EndsWell, position_deep-Reaches}

abbrev product : ℤ → ℤ → ℤ
product a b =
    sub_ℕ (pos_part a * pos_part b + neg_part a * neg_part b)
      (pos_part a * neg_part b + neg_part a * pos_part b)

abbrev ints : Floats ℤ
ints = record {
  add = ◌+ℤ◌;
  sub = ◌-ℤ◌;
  mul = product;
  div = λ a b. a;
  neg = λ a. pos 0 -ℤ a;
  lt = ltb_ℤ;
  le = leb_ℤ;
  eq = λ a b. leb_ℤ a b && leb_ℤ b a;
  decimal = λ m e. pos (m / 10 ^ e);
  sqrt = λ a. a;
  pow = λ a b. a;
  fabs = λ a. pos (nat_abs a);
  fmod = λ a b. a;
  sin = λ a. a;
  cos = λ a. a;
  tan = λ a. a;
  atan = λ a. a;
  atan2 = λ a b. a;
  trunc = λ a. a;
}

ints-IsExact : IsExact ints (λ a. a) 1
ints-IsExact = record {
  some_tick = omega arith;
  add_value = λ a b. refl;
  sub_value = λ a b. refl;
  neg_value = λ a. refl;
  fabs_value = λ a. refl;
  le_value = λ a b. refl;
  lt_value = λ a b. refl;
  zero_value = refl;
  one_value = refl;
  step_value = refl;
  max_value = refl;
}

abbrev origin : Vect3 ℤ
origin = record { x = pos 0; y = pos 0; z = pos 0 }

-- An orbit of which all numbers are 0, which makes it resonant here.
abbrev still : Orbit ℤ
still = record {
  elements = record {
    number = 1;
    drag = pos 0;
    b_star = pos 0;
    inclination = pos 0;
    raan = pos 0;
    eccentricity = pos 0;
    arg_perigee = pos 0;
    mean_anomaly = pos 0;
    mean_motion = pos 0;
  };
  recovered = record {
    mean_motion_r = pos 0;
    semi_major_r = pos 0;
    semi_minor_r = pos 0;
    perigee_r = pos 0;
    apogee_r = pos 0;
    a0 = pos 0;
    a1 = pos 0;
    xno = pos 0;
    betao2 = pos 0;
    betao = pos 0;
    cos_i = pos 0;
    period = pos 0;
  };
}

abbrev blank : CalcData ℤ
blank = record {
  xmp = pos 0;
  xnode = pos 0;
  omega = pos 0;
  tempa = pos 0;
  tempe = pos 0;
  templ = pos 0;
  a = pos 5;
  e = pos 0;
  xinc = pos 0;
  xl = pos 0;
  tsince = pos 0;
  sinio = pos 0;
  cosio = pos 0;
  cs = cs_eci;
}

still_resonates : (new_sdp4 ints still (pos 99001)).resonance.iresfl ≡ true
unfolding new_sdp4
still_resonates = refl

position_deep_example :
    EndsWell ints still
      (λ a. a)
      1
      (pos 5000)
      0
      origin
      origin
      (new_sdp4 ints still (pos 99001))
      (position_deep ints 10000
        (pos 0)
        still
        (new_sdp4 ints still (pos 99001))
        blank
        0
        (pos 5000)
        origin
        origin
        cs_eci)
position_deep_example =
    position_deep-Reaches ints still ints-IsExact 10000 (pos 99001)
      (new_sdp4 ints still (pos 99001)) (pos 0) blank 0 (pos 5000) origin origin cs_eci
      (omega arith) (made refl)

get_position_example :
    IsWarned ints
      (new_sgdp4 ints still)
      blank
      0x20
      origin
      origin
      (get_position ints (pos 0) (new_sgdp4 ints still) blank 0x20 origin origin)
get_position_example =
    get_position-IsWarned ints (new_sgdp4 ints still) blank (pos 0) 0x20 origin origin

abbrev far_anomaly : LongPeriod ℤ
far_anomaly = record { axn = pos 0; ayn = pos 0; elsq = pos 0; capu = pos 3 }

abbrev doubles : Double
doubles = record {
  D = ℤ;
  add = ◌+ℤ◌;
  sub = ◌-ℤ◌;
  mul = product;
  div = λ a b. a;
  sqrt = λ a. a;
  pow = λ a b. a;
  sin = λ a. a;
  ceil = λ a. a;
  lt = ltb_ℤ;
  le = leb_ℤ;
  decimal = λ m e. pos (m / 10 ^ e);
  from_u64 = pos;
  to_u64 = nat_abs;
  to_u32 = nat_abs;
}

-- An orbit with a long period, for which the model for far orbits is chosen.
abbrev molniya : Keo ℤ
molniya = record {
  name = "MOLNIYA";
  jd = pos 2451540;
  epoch = pos 100001;
  orbit = record {
    elements = record still.elements { eccentricity = pos 1 };
    recovered = record still.recovered { period = pos 720 };
  };
  imode = sgdp4_deep_norm;
}

abbrev molniya_norad : Norad ℤ
molniya_norad = new_norad ints molniya

molniya_chosen : molniya.imode ≡ choose_mode doubles molniya.orbit
unfolding choose_mode
molniya_chosen = refl

position_of_example :
    Lands 0 origin origin
      (position_of ints 10000 (pos 0) blank molniya molniya_norad 0 (pos 5000) origin origin cs_eci)
position_of_example =
    position_of-Flown doubles ints (λ a. a) 1 molniya 10000 molniya_norad (pos 0) blank 0 (pos 5000)
      origin origin cs_eci ints-IsExact (omega arith) molniya_chosen (made_for_entry refl)
