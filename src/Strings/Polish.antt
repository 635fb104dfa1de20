-- ===== src/Strings/Polish.antt =====
-- web/strings.js: the Polish texts.
use Prim.Native.String.{String}
use quicksend.Base.{List, [], ◌∷◌}

abbrev pub polish : List (String × String)
polish =
    ("langGroupLabel", "Język")
    ∷ ("themeGroupLabel", "Motyw")
    ∷ ("langAuto", "Auto")
    ∷ ("langPl", "PL")
    ∷ ("langEn", "EN")
    ∷ ("themeSystem", "System")
    ∷ ("themeLight", "Jasny")
    ∷ ("themeDark", "Ciemny")
    ∷ ("appTagline", "Wyślij plik na inne urządzenie w kilka sekund.")
    ∷ ("startReceive", "📥 Odbierz")
    ∷ ("startSend", "📤 Wyślij")
    ∷ ("remoteCodeLink", "Zdalnie? Sparuj kodem zamiast QR")
    ∷ ("codeRoleChooseTitle", "Parowanie zdalne kodem")
    ∷ ("roleReceive", "Odbierz")
    ∷ ("roleSend", "Wyślij")
    ∷ ("backButton", "Wstecz")
    ∷ ("receiverGenerating", "Generowanie sesji…")
    ∷ ("receiverWaiting", "Zeskanuj ten kod na drugim urządzeniu")
    ∷ ("receiverLinkLabel", "Lub wklej ten link na drugim urządzeniu:")
    ∷ (
      "shareSecurityWarning",
      "Każdy, kto ma ten link lub kod QR, może dołączyć do tego transferu. Udostępnij go tylko osobie, do której wysyłasz plik.",
    )
    ∷ ("shareButton", "Udostępnij")
    ∷ ("shareCopied", "Skopiowano do schowka")
    ∷ ("shareCopyManually", "Zaznacz i skopiuj powyższy tekst ręcznie")
    ∷ ("copyCodeButton", "Kopiuj kod")
    ∷ ("pasteLinkInsteadButton", "Nie możesz zeskanować? Wklej link ręcznie")
    ∷ ("senderPasteLabel", "Wklej link z drugiego urządzenia")
    ∷ ("senderPasteButton", "Dołącz")
    ∷ ("senderScanHint", "Wyceluj kamerą w kod QR")
    ∷ ("senderCameraError", "Brak dostępu do kamery. Użyj wklejania linku.")
    ∷ ("senderPasteInvalid", "To nie wygląda na poprawny link Quicksend.")
    ∷ ("joinDetectedTitle", "Wykryto sesję parowania")
    ∷ ("joinDetectedButton", "Dołącz do sesji")
    ∷ ("joinDetectedCancel", "Anuluj")
    ∷ ("codeReceiverWaiting", "Podaj ten kod drugiej osobie (dowolnym kanałem)")
    ∷ ("codeExpiryNote", "Kod jest ważny 5 minut i można go użyć tylko raz.")
    ∷ ("codeSenderLabel", "Wpisz kod otrzymany od drugiej osoby")
    ∷ ("statusConnecting", "Łączenie…")
    ∷ ("statusJoining", "Dołączanie…")
    ∷ ("statusVerifying", "Weryfikowanie kodu…")
    ∷ ("statusPaired", "Sparowano!")
    ∷ ("statusPairedHost", "Sparowano! Drugie urządzenie dołączyło.")
    ∷ ("statusPairedGuest", "Sparowano z drugim urządzeniem.")
    ∷ ("errSessionNotFound", "Nie znaleziono sesji. Link może być nieaktualny.")
    ∷ ("errSessionFull", "Ta sesja ma już dwoje uczestników.")
    ∷ ("errTooManySessions", "Zbyt wiele aktywnych sesji z tego urządzenia.")
    ∷ ("errInvalidCode", "Nieprawidłowy lub wygasły kod.")
    ∷ ("errTooManyAttempts", "Zbyt wiele prób. Poczekaj chwilę i spróbuj ponownie.")
    ∷ ("errCodeMismatch", "Kod się nie zgadza po obu stronach. Spróbujcie ponownie z nowym kodem.")
    ∷ ("errConnectionLost", "Utracono połączenie i nie udało się go wznowić.")
    ∷ ("errSessionEnded", "Sesja zakończona — drugie urządzenie nie wróciło na czas.")
    ∷ ("errEndedByPeer", "Druga strona zakończyła sesję.")
    ∷ ("errInactivityTimeout", "Sesja zakończona z powodu braku aktywności.")
    ∷ ("errGeneric", "Coś poszło nie tak. Spróbuj ponownie.")
    ∷ ("tryAgain", "Spróbuj ponownie")
    ∷ ("insecureContextTitle", "Brak bezpiecznego połączenia")
    ∷ (
      "insecureContextBody",
      "Ta strona jest otwarta pod zwykłym http:// pod adresem innym niż localhost, więc przeglądarka blokuje szyfrowanie (Web Crypto), którego Quicksend wymaga do parowania i przesyłania plików. Otwórz stronę przez HTTPS — np. uruchamiając docker-compose.yml z Caddy jako reverse proxy (ustaw QUICKSEND_DOMAIN na adres IP tego urządzenia w sieci lokalnej i zaakceptuj ostrzeżenie o certyfikacie na każdym urządzeniu) — albo testuj wyłącznie przez localhost.",
    )
    ∷ ("reconnecting", "Połączenie przerwane, próba wznowienia…")
    ∷ ("swapRolesButton", "Zamień się rolami")
    ∷ ("swapRequesting", "Czekam na zgodę drugiej strony…")
    ∷ (
      "swapRejected", "Druga strona odrzuciła zamianę (trwa transfer). Spróbuj ponownie za chwilę.",
    )
    ∷ ("swapBusyLocal", "Zaczekaj, aż bieżący transfer się zakończy.")
    ∷ ("swapTimedOut", "Brak odpowiedzi. Spróbuj ponownie.")
    ∷ ("disconnectButton", "Rozłącz")
    ∷ ("transferSenderHint", "Wybierz pliki do wysłania")
    ∷ ("dropHint", "albo przeciągnij i upuść pliki tutaj")
    ∷ ("transferWaitingForFiles", "Czekam na pliki…")
    ∷ ("chooseSaveFolderButton", "Wybierz folder zapisu")
    ∷ ("changeSaveFolderButton", "Zmień folder zapisu")
    ∷ ("saveFolderChosenPrefix", "Pliki będą zapisywane w folderze")
    ∷ ("transferReceivingFiles", "Odbieranie plików…")
    ∷ ("transferSending", "Wysyłanie…")
    ∷ ("transferSent", "Wysłano")
    ∷ ("transferSavedToDisk", "Zapisano na dysku")
    ∷ ("transferDownloaded", "Pobrano")
    ∷ ("openFileLink", "Otwórz")
    ∷ ("transferError", "Błąd transferu")
    ∷ ("transferCanceled", "Anulowano")
    ∷ ("transferTooLarge", "Plik zbyt duży — przekroczono limit rozmiaru")
    ∷ (
      "transferLargeFileWarning",
      "Duży plik bez wsparcia zapisu na dysk — może zużyć dużo pamięci przeglądarki.",
    )
    ∷ ("cancelButton", "Anuluj")
    ∷ []
