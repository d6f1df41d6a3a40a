-- ===== src/Clients/Values.antt =====
-- The tuples of app-cliente.c and app-cliente-1.c.
use trabajos_sistemas_distri.Base.{List, [], ◌∷◌, Bytes, codes, ℤ, pos}
use trabajos_sistemas_distri.Claves.Floats.{Floats}
use trabajos_sistemas_distri.Claves.Tuples.{Tuple, Coord}
use trabajos_sistemas_distri.Clients.Checks.{double}

abbrev pub coord : ℤ → ℤ → Coord
coord x y = record { x = x; y = y }

module _ (fl : Floats) where
  open fl use {Float}

  -- The text of the clients of more than 255 characters
  abbrev long_text : Bytes
  long_text =
      codes
        "String con más de 255 caracteres. String con más de 255 caracteres. String con más de 255 caracteres. String con más de 255 caracteres. String con más de 255 caracteres. String con más de 255 caracteres. String con más de 255 caracteres. String con más de 255 caracteres."

  abbrev pub set_0 : Tuple Float
  set_0 = record {
    key = pos 1;
    value1 = codes "sistemas";
    n_value2 = pos 3;
    v_value2 = double fl "2.3" ∷ double fl "0.5" ∷ double fl "23.45" ∷ [];
    value3 = coord (pos 10) (pos 5);
  }

  -- The vector is that of each exercise.
  abbrev pub set_1 : List Float → Tuple Float
  set_1 vs = record {
    key = pos 2;
    value1 = codes "distribuidos";
    n_value2 = pos 5;
    v_value2 = vs;
    value3 = coord (pos 23) (pos 33);
  }

  abbrev pub set_2 : Tuple Float
  set_2 = record {
    key = pos 3;
    value1 = codes "ejercicio";
    n_value2 = pos 2;
    v_value2 = double fl "7.1" ∷ double fl "9.2" ∷ [];
    value3 = coord (pos 30) (pos 15);
  }

  abbrev four : List Float
  four = double fl "4.4" ∷ double fl "8.8" ∷ double fl "12.12" ∷ double fl "16.16" ∷ []

  abbrev pub set_3 : Tuple Float
  set_3 = record {
    key = pos 4;
    value1 = codes "evaluable1";
    n_value2 = pos 4;
    v_value2 = four;
    value3 = coord (pos 25) (pos 50);
  }

  -- A count out of range, and a text that is too long; the key is that of the call.
  abbrev pub set_4 : ℤ → Tuple Float
  set_4 key = record {
    key = key;
    value1 = codes "evaluable1";
    n_value2 = pos 40;
    v_value2 = four;
    value3 = coord (pos 25) (pos 50);
  }

  abbrev pub set_5 : ℤ → Tuple Float
  set_5 key = record {
    key = key;
    value1 = long_text;
    n_value2 = pos 4;
    v_value2 = four;
    value3 = coord (pos 25) (pos 50);
  }

  abbrev pub mod_0 : Tuple Float
  mod_0 = record {
    key = pos 1;
    value1 = codes "valor_modificado";
    n_value2 = pos 4;
    v_value2 = double fl "1.1" ∷ double fl "3.3" ∷ double fl "5.5" ∷ double fl "7.7" ∷ [];
    value3 = coord (pos 20) (pos 10);
  }

  abbrev pub mod_1 : Tuple Float
  mod_1 = record {
    key = pos 20;
    value1 = codes "modificado_1";
    n_value2 = pos 2;
    v_value2 = double fl "5.5" ∷ double fl "10.1" ∷ [];
    value3 = coord (pos 12) (pos 8);
  }

  abbrev pub mod_2 : Tuple Float
  mod_2 = record {
    key = pos 3;
    value1 = codes "modificado_2";
    n_value2 = pos 3;
    v_value2 = double fl "3.14" ∷ double fl "6.28" ∷ double fl "9.42" ∷ [];
    value3 = coord (pos 40) (pos 20);
  }

  -- The vector of exercise 1
  abbrev pub five : List Float
  five =
      double fl "2.3"
      ∷ double fl "0.5"
      ∷ double fl "23.45"
      ∷ double fl "13.13"
      ∷ double fl "33.33"
      ∷ []

  -- That of exercises 2 and 3, where a comma stands for the point of 33.33
  abbrev pub six : List Float
  six =
      double fl "2.3"
      ∷ double fl "0.5"
      ∷ double fl "23.45"
      ∷ double fl "13.13"
      ∷ double fl "33"
      ∷ double fl "33"
      ∷ []
